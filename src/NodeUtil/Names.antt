-- ===== src/NodeUtil/Names.antt =====
-- GenerateSafeJobName (internal/controller/nodeutil/nodes.go). Texts are lists of bytes, since the
-- code counts and cuts bytes; `job_id` is the first eight characters of a fresh UUID.
use tuppr.Prelude.{
  ℕ, ◌+◌, ◌-◌, ◌≤◌, List, ◌∷◌, ◌++◌, min, max, leb, ltb, length, take, if◌then◌else◌, arith,
  length-append, length-take_le,
}

abbrev pub Bytes : Type 0
Bytes = List ℕ

abbrev pub max_length : ℕ
max_length = 57

abbrev dash : ℕ
dash = b'-'

-- `available := maxLength - prefixLen` may be negative in Go: `leb max_length prefix_len` is
-- `available <= 0`.
pub generate_safe_job_name : Bytes → Bytes → Bytes → Bytes
generate_safe_job_name prefix identifier job_id =
    let prefix_len = length prefix + length job_id + 2 in
    let short = prefix ++ (dash ∷ job_id) in
    let identifier_len = min (length identifier) (max_length - prefix_len) in
    if leb max_length prefix_len
    then short
    else (if ltb 0 identifier_len
        then prefix ++ (dash ∷ (take identifier_len identifier ++ (dash ∷ job_id)))
        else short)

-- A job name has at most 57 bytes, the limit of the code, unless the prefix, a dash and the
-- identifier of the job are longer by themselves: then it has the length of these three.
pub length-generate_safe_job_name :
    (prefix identifier job_id : Bytes)
    → length (generate_safe_job_name prefix identifier job_id)
      ≤ max max_length (length prefix + 1 + length job_id)
unfolding generate_safe_job_name
length-generate_safe_job_name prefix identifier job_id =
    let cut = min (length identifier) (max_length - (length prefix + length job_id + 2)) in
    ground (
      arith,
      length-append prefix (dash ∷ job_id),
      length-append prefix (dash ∷ (take cut identifier ++ (dash ∷ job_id))),
      length-append (take cut identifier) (dash ∷ job_id),
      length-take_le cut identifier,
    )
