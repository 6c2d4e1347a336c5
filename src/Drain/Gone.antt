-- ===== src/Drain/Gone.antt =====
-- What a drain that gives no error has done.
use tuppr.Prelude.{
  String, Bool, true, false, not, ◌||◌, Option, none, some, List, [], ◌∷◌, ◌++◌, ◌≡◌, refl, ◌⊎◌,
  inl, inr, Memᴰ, All, contains, contains_func, if◌then◌else◌,
}
use mathlib.Core.List.Memᴰ.{append_left, append_right}
use tuppr.Api.Cluster.{Pod}
use tuppr.Drain.{
  EvictionError, Listing, Request, is_drain_managed, node_pods, delete_result, delete_pod,
  after_eviction, next_eviction, evict_pod, evict_all, holds_pending, wait_gone, uids,
  after_evictions, drain_node,
}

some-ne-none : {A : Type 0} (a : A) → some a ≡ none → ⊥
some-ne-none a = cc

true-ne-false : true ≡ false → ⊥
true-ne-false = cc

or_false : (b c : Bool) → (b || c) ≡ false → (b ≡ false) × (c ≡ false)
or_false true c h = absurd (true-ne-false h)
or_false false c h = (refl, h)

none_passes :
    {A : Type 0} (p : A → Bool) (xs : List A)
    → contains_func p xs ≡ false
    → All (λ x. p x ≡ false) xs
none_passes p [] h = tt
none_passes p (x ∷ xs) h =
    let (here, there) = or_false (p x) (contains_func p xs) h in (here, none_passes p xs there)

module _ (respect_pdbs : Bool) where
  -- The pod was on its way out before the drain, or its eviction went through, or its deletion where
  -- disruption budgets do not count.
  pub IsAsked : List Request → Pod → Type 0
  IsAsked sent pod =
      (pod.terminating ≡ true)
      ⊎ Memᴰ (Request.evict pod) sent
      ⊎ (Memᴰ (Request.delete pod) sent × (respect_pdbs ≡ false))

  IsAsked-left :
      (sent rest : List Request) (pod : Pod) → IsAsked sent pod → IsAsked (sent ++ rest) pod
  unfolding IsAsked
  IsAsked-left sent rest pod (inl t) = inl t
  IsAsked-left sent rest pod (inr (inl m)) = inr (inl (append_left rest m))
  IsAsked-left sent rest pod (inr (inr (m, h))) = inr (inr (append_left rest m, h))

  IsAsked-right :
      (sent rest : List Request) (pod : Pod) → IsAsked rest pod → IsAsked (sent ++ rest) pod
  unfolding IsAsked
  IsAsked-right sent rest pod (inl t) = inl t
  IsAsked-right sent rest pod (inr (inl m)) = inr (inl (append_right sent m))
  IsAsked-right sent rest pod (inr (inr (m, h))) = inr (inr (append_right sent m, h))

  All-right :
      (sent rest : List Request) (ps : List Pod)
      → All (IsAsked rest) ps
      → All (IsAsked (sent ++ rest)) ps
  All-right sent rest [] h = tt
  All-right sent rest (p ∷ ps) (h, hs) = (IsAsked-right sent rest p h, All-right sent rest ps hs)

module _ (respect_pdbs : Bool) (evict_answer : Pod → Option EvictionError)
    (delete_answer : Pod → Option String) where
  delete_result-IsAsked :
      (pod : Pod) (r : Option String)
      → respect_pdbs ≡ false
      → let (failed, sent) = delete_result respect_pdbs evict_answer delete_answer pod r in
        failed ≡ none → IsAsked respect_pdbs sent pod
  unfolding IsAsked
  delete_result-IsAsked pod none e h = inr (inr (Memᴰ.head refl, e))
  delete_result-IsAsked pod (some x) e h = absurd (some-ne-none _ h)

  denied-IsAsked :
      (pod : Pod) (x : String) (b : Bool)
      → respect_pdbs ≡ b
      → let (failed, sent) =
          if not b then delete_pod respect_pdbs evict_answer delete_answer pod else (some x, []) in
        failed ≡ none → IsAsked respect_pdbs sent pod
  denied-IsAsked pod x true e h = absurd (some-ne-none x h)
  denied-IsAsked pod x false e h = delete_result-IsAsked pod (delete_answer pod) e h

  after_eviction-IsAsked :
      (pod : Pod) (r : Option EvictionError)
      → let (failed, sent) = after_eviction respect_pdbs evict_answer delete_answer pod r in
        failed ≡ none → IsAsked respect_pdbs sent pod
  unfolding IsAsked
  after_eviction-IsAsked pod none h = inr (inl (Memᴰ.head refl))
  after_eviction-IsAsked pod (some (EvictionError.other_failure x)) h = absurd (some-ne-none _ h)
  after_eviction-IsAsked pod (some (EvictionError.too_many_requests x)) h =
      denied-IsAsked pod x respect_pdbs refl h

  next_eviction-IsAsked :
      (pod : Pod) (ps : List Pod) (r rest : Option String × List Request)
      → (r.0 ≡ none → IsAsked respect_pdbs r.1 pod)
      → (rest.0 ≡ none → All (IsAsked respect_pdbs rest.1) ps)
      → let (failed, sent) = next_eviction respect_pdbs evict_answer delete_answer pod r rest in
        failed ≡ none → All (IsAsked respect_pdbs sent) (pod ∷ ps)
  next_eviction-IsAsked pod ps (none, sent) (failed, rest) f g h =
      (IsAsked-left respect_pdbs sent rest pod (f refl), All-right respect_pdbs sent rest ps (g h))
  next_eviction-IsAsked pod ps (some e, sent) (failed, rest) f g h = absurd (some-ne-none _ h)

  evict_step-IsAsked :
      (pod : Pod) (ps : List Pod) (rest : Option String × List Request) (b : Bool)
      → pod.terminating ≡ b
      → (rest.0 ≡ none → All (IsAsked respect_pdbs rest.1) ps)
      → let (failed, sent) =
          if b
          then rest
          else next_eviction respect_pdbs evict_answer delete_answer pod
              (evict_pod respect_pdbs evict_answer delete_answer pod)
              rest in
        failed ≡ none → All (IsAsked respect_pdbs sent) (pod ∷ ps)
  unfolding IsAsked
  evict_step-IsAsked pod ps rest true t g h = (inl t, g h)
  evict_step-IsAsked pod ps rest false t g h =
      next_eviction-IsAsked pod ps (evict_pod respect_pdbs evict_answer delete_answer pod) rest
        (after_eviction-IsAsked pod (evict_answer pod)) g h

  evict_all-IsAsked :
      (ps : List Pod)
      → let (failed, sent) = evict_all respect_pdbs evict_answer delete_answer ps in
        failed ≡ none → All (IsAsked respect_pdbs sent) ps
  unfolding evict_all
  evict_all-IsAsked [] h = tt
  evict_all-IsAsked (pod ∷ ps) h =
      evict_step-IsAsked pod ps (evict_all respect_pdbs evict_answer delete_answer ps)
        pod.terminating refl (evict_all-IsAsked ps) h

-- Some answer of the wait has none of the pending pods in it.
pub AreGone : Option (String × String) → List String → List Listing → Type 0
AreGone skip pending polls =
    (listed : List Pod) × Memᴰ (Listing.items listed) polls
    × All (λ pod. contains pending pod.uid ≡ false) (node_pods skip is_drain_managed listed)

module _ (skip : Option (String × String)) (pending : List String) where
  AreGone-later :
      (answer : Listing) (polls : List Listing)
      → AreGone skip pending polls
      → AreGone skip pending (answer ∷ polls)
  unfolding AreGone
  AreGone-later answer polls (listed, m, h) = (listed, Memᴰ.tail m, h)

  wait_step-AreGone :
      (listed : List Pod) (polls : List Listing) (later : Option String) (b : Bool)
      → holds_pending skip pending listed ≡ b
      → (later ≡ none → AreGone skip pending polls)
      → (if b then later else none) ≡ none
      → AreGone skip pending (Listing.items listed ∷ polls)
  unfolding AreGone
  wait_step-AreGone listed polls later true e g h = AreGone-later (Listing.items listed) polls (g h)
  wait_step-AreGone listed polls later false e g h =
      (listed, Memᴰ.head refl, none_passes _ (node_pods skip is_drain_managed listed) e)

  wait_gone-AreGone :
      (polls : List Listing) → wait_gone skip pending polls ≡ none → AreGone skip pending polls
  unfolding wait_gone
  wait_gone-AreGone [] h = absurd (some-ne-none _ h)
  wait_gone-AreGone (Listing.list_error e ∷ polls) h = absurd (some-ne-none _ h)
  wait_gone-AreGone (Listing.items listed ∷ polls) h =
      wait_step-AreGone listed polls (wait_gone skip pending polls)
        (holds_pending skip pending listed) refl (wait_gone-AreGone polls) h

module _ (skip : Option (String × String)) (respect_pdbs : Bool)
    (evict_answer : Pod → Option EvictionError) (delete_answer : Pod → Option String) where
  after_evictions-Gone :
      (seen : List Pod) (polls : List Listing) (r : Option String × List Request)
      → (r.0 ≡ none → All (IsAsked respect_pdbs r.1) seen)
      → let (failed, sent) =
          after_evictions skip respect_pdbs evict_answer delete_answer seen polls r in
        failed ≡ none → All (IsAsked respect_pdbs sent) seen × AreGone skip (uids seen) polls
  after_evictions-Gone seen polls (some e, sent) f h = absurd (some-ne-none _ h)
  after_evictions-Gone seen polls (none, sent) f h =
      (f refl, wait_gone-AreGone skip (uids seen) polls h)

  -- Where the pods of the node are listed and DrainNode gives no error: each pod that a drain answers
  -- for, the controller's own aside, was terminating already, or its eviction went through, or its
  -- deletion did and disruption budgets do not count; and some answer of the wait shows none of these
  -- pods on the node.
  pub drain_node-AreGone :
      (listed : List Pod) (polls : List Listing)
      → let (failed, sent) =
          drain_node skip respect_pdbs evict_answer delete_answer (Listing.items listed) polls in
        let seen = node_pods skip is_drain_managed listed in
        failed ≡ none → All (IsAsked respect_pdbs sent) seen × AreGone skip (uids seen) polls
  unfolding drain_node
  drain_node-AreGone listed polls h =
      after_evictions-Gone (node_pods skip is_drain_managed listed) polls
        (evict_all respect_pdbs evict_answer delete_answer (node_pods skip is_drain_managed listed))
        (evict_all-IsAsked respect_pdbs evict_answer delete_answer
          (node_pods skip is_drain_managed listed))
        h
