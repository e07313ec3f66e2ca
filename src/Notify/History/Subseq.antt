-- ===== src/Notify/History/Subseq.antt =====
-- Messages that are among others in the same order.
use esp32_nut_bluetti.Prelude.{List, [], ◌∷◌, ◌++◌}
use esp32_nut_bluetti.Notify.State.{Msg}

-- `Subseq xs ys`: the messages of xs are among those of ys, in the same order.
pub data Subseq : List Msg → List Msg → Type 0 where
  done : Subseq [] []
  skip : {xs ys : List Msg} (m : Msg) → Subseq xs ys → Subseq xs (m ∷ ys)
  keep : {xs ys : List Msg} (m : Msg) → Subseq xs ys → Subseq (m ∷ xs) (m ∷ ys)

pub Subseq-refl : (xs : List Msg) → Subseq xs xs
Subseq-refl [] = done
Subseq-refl (x ∷ xs) = keep x (Subseq-refl xs)

pub Subseq-trans : {xs ys zs : List Msg} → Subseq xs ys → Subseq ys zs → Subseq xs zs
Subseq-trans s done = s
Subseq-trans s (skip m t) = skip m (Subseq-trans s t)
Subseq-trans (skip m s) (keep _ t) = skip m (Subseq-trans s t)
Subseq-trans (keep m s) (keep _ t) = keep m (Subseq-trans s t)

pub Subseq-append : (zs : List Msg) {xs ys : List Msg} → Subseq xs ys → Subseq (xs ++ zs) (ys ++ zs)
Subseq-append zs done = Subseq-refl zs
Subseq-append zs (skip m s) = skip m (Subseq-append zs s)
Subseq-append zs (keep m s) = keep m (Subseq-append zs s)

pub Subseq-front : (xs : List Msg) {ys zs : List Msg} → Subseq ys zs → Subseq (xs ++ ys) (xs ++ zs)
Subseq-front [] s = s
Subseq-front (x ∷ xs) s = keep x (Subseq-front xs s)

pub Subseq-none : (zs : List Msg) → Subseq [] zs
Subseq-none [] = done
Subseq-none (z ∷ zs) = skip z (Subseq-none zs)
