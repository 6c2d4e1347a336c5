-- ===== src/Talos/World/Effects.antt =====
-- Actions whose effects are all of some kinds.
use tuppr.Prelude.{List, [], ◌∷◌, ◌++◌, ◌≡◌, refl, ap, sym, ◌∙◌, All, All-append}
use tuppr.Talos.World.{World, Effect}
use tuppr.Talos.World.Keeps.{IsFrame}

-- The effects since `v` satisfy `P`.
unfoldable pub Only : (Effect → Type 0) → World → World → Type 0
Only P v w = (es : List Effect) × (w.trace ≡ es ++ v.trace) × All P es

append_assoc : (xs ys zs : List Effect) → (xs ++ ys) ++ zs ≡ xs ++ (ys ++ zs)
append_assoc [] ys zs = refl
append_assoc (x ∷ xs) ys zs = ap (λ l. x ∷ l) (append_assoc xs ys zs)

pub Only-IsFrame : (P : Effect → Type 0) → IsFrame (Only P)
unfolding Only
Only-IsFrame P = record {
  same = λ w. ([], refl, tt);
  call = λ w n. ([], refl, tt);
  chain = λ {u} {v} {w} (es, e, h) (fs, f, k). (
    fs ++ es,
    f ∙ ap (λ l. fs ++ l) e ∙ sym (append_assoc fs es u.trace),
    All-append P fs es k h,
  );
}

All-weaken :
    (P Q : Effect → Type 0) → ((e : Effect) → P e → Q e) → (es : List Effect) → All P es → All Q es
All-weaken P Q f [] h = tt
All-weaken P Q f (e ∷ es) (h, hs) = (f e h, All-weaken P Q f es hs)

pub Only-weaken :
    (P Q : Effect → Type 0) → ((e : Effect) → P e → Q e) → (v w : World) → Only P v w → Only Q v w
unfolding Only
Only-weaken P Q f v w (es, e, h) = (es, e, All-weaken P Q f es h)
