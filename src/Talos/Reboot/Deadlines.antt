-- ===== src/Talos/Reboot/Deadlines.antt =====
-- What the entries of the reboot wait keep.
use tuppr.Prelude.{
  String, Bool, true, false, not, ◌||◌, is_none, Option, none, some, List, [], ◌∷◌, ◌++◌, ◌≡◌, refl,
  contains, str_eq, str_eq→eq, Bool-cases, if◌then◌else◌, arith, eq_iff, inl, inr, sym, ap,
}
use tuppr.Api.Talos.{Time, NodeRebootStatus}
use tuppr.Talos.Reboot.{is_tracked, track_loop, tracked_deadline}

tracked-is :
    (name : String) (es : List NodeRebootStatus)
    → is_tracked name es ≡ not (is_none (tracked_deadline name es))
unfolding tracked_deadline
tracked-is name [] = refl
tracked-is name (e ∷ es) =
    let ih = tracked-is name es in
    elim (Bool-cases (str_eq e.node_name name)) [ inl h ↦ rw h | inr h ↦ rw (h, ih) ]

abbrev pub or_else : {A : Type 0} → Option A → Option A → Option A
or_else none d = d
or_else (some a) d = some a

or_else-none : {A : Type 0} (o : Option A) → or_else o none ≡ o
or_else-none none = refl
or_else-none (some a) = refl

-- One more name whose entry, if it is the node's, is there already.
skip_name :
    (found : Option Time) (same more : Bool) (deadline : Time)
    → (same ≡ true → is_none found ≡ false)
    → or_else found (if more then some deadline else none)
      ≡ or_else found (if same || more then some deadline else none)
skip_name none true more deadline h = cc (h refl)
skip_name (some t) true more deadline h = refl
skip_name found false more deadline h = refl

-- One more name, whose entry comes after those that the node had.
add_name :
    (found : Option Time) (same more : Bool) (deadline : Time)
    → or_else
        (elim found [ some t ↦ some t | none ↦ if same then some deadline else none ])
        (if more then some deadline else none)
      ≡ or_else found (if same || more then some deadline else none)
add_name (some t) same more deadline = refl
add_name none true more deadline = refl
add_name none false more deadline = refl

str_eq_sym : (s t : String) → str_eq s t ≡ str_eq t s
str_eq_sym s t = elim (Bool-cases (str_eq s t)) [
  | inl h ↦ ground (arith, h, eq_iff s t, eq_iff t s)
  | inr h ↦ ground (arith, h, eq_iff s t, eq_iff t s)
]

tracked_append :
    (name other : String) (deadline : Time) (es : List NodeRebootStatus)
    → tracked_deadline name (es ++ (record { node_name = other; deadline = deadline } ∷ []))
      ≡ elim (tracked_deadline name es) [
        | some t ↦ some t
        | none ↦ if str_eq name other then some deadline else none
      ]
unfolding tracked_deadline
tracked_append name other deadline [] =
    ap (λ b. if b then some deadline else none) (str_eq_sym other name)
tracked_append name other deadline (e ∷ es) =
    let ih = tracked_append name other deadline es in
    elim (Bool-cases (str_eq e.node_name name)) [ inl h ↦ rw h | inr h ↦ rw (h, ih) ]

-- trackRebootingNodes leaves the deadline of a node that is tracked already, and gives the one of
-- this pass to every other node that it names.
pub track_loop-tracked_deadline :
    (deadline : Time) (name : String) (names : List String) (es : List NodeRebootStatus)
    → tracked_deadline name (track_loop deadline names es)
      ≡ or_else (tracked_deadline name es) (if contains names name then some deadline else none)
unfolding track_loop
track_loop-tracked_deadline deadline name [] es = sym (or_else-none (tracked_deadline name es))
track_loop-tracked_deadline deadline name (other ∷ names) es =
    let tracked = tracked-is other es in
    elim (Bool-cases (is_tracked other es)) [
      | inl h ↦
          rw (h, track_loop-tracked_deadline deadline name names es)
            (skip_name (tracked_deadline name es) (str_eq name other) (contains names name) deadline
              (λ same. ground (
                arith,
                tracked,
                h,
                ap (λ n. is_none (tracked_deadline n es)) (str_eq→eq name other same),
              )))
      | inr h ↦
          rw
            (
              h,
              track_loop-tracked_deadline deadline name names
                  (es ++ (record { node_name = other; deadline = deadline } ∷ [])),
              tracked_append name other deadline es,
            )
            (add_name (tracked_deadline name es) (str_eq name other) (contains names name) deadline)
    ]
