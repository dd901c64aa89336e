-- ===== src/Base/Split.antt =====
-- Words joined by a character, and texts split at one.
use Prim.Native.Nat.{ℕ}
use mathlib.Core.Bool.{false}
use mathlib.Core.List.{List, [], ◌∷◌, ◌++◌, reverse, reverse-cons}
use mathlib.Core.Path.{◌≡◌, refl, ap, ◌∙◌}
use native.Mathlib.Omega.{arith}
use mathlib.Core.Logic.{inl, inr}
use tmask_tt.Base.Tests.{◌==◌, Bool-cases}
use tmask_tt.Base.Text.{Text, has_char, split_on, join_with, extend}

-- No word has the character.
abbrev pub NoneHas : ℕ → List Text → Type 0
NoneHas k [] = Unit {0}
NoneHas k (w ∷ ws) = (has_char k w ≡ false) × NoneHas k ws

split_on-append :
    (k : ℕ) (w rest : Text)
    → has_char k w ≡ false
    → split_on k (w ++ (k ∷ rest)) ≡ w ∷ split_on k rest
unfolding split_on
split_on-append k [] rest h = ground arith
split_on-append k (c ∷ w) rest h = ground (arith, split_on-append k w rest)

split_on_lem : (k : ℕ) (w : Text) → has_char k w ≡ false → split_on k w ≡ w ∷ []
unfolding split_on
split_on_lem k [] h = refl
split_on_lem k (c ∷ w) h = ground (arith, split_on_lem k w)

-- Splitting the words joined by a character that none of them has gives the words.
pub split_on-join_with :
    (k : ℕ) (w : Text) (ws : List Text)
    → NoneHas k (w ∷ ws)
    → split_on k (join_with k (w ∷ ws)) ≡ w ∷ ws
unfolding join_with
split_on-join_with k w [] (h, none_more) = split_on_lem k w h
split_on-join_with k w (v ∷ ws) (h, hs) =
    split_on-append k w (join_with k (v ∷ ws)) h
    ∙ ap (λ rest. w ∷ rest) (split_on-join_with k v ws hs)

NoneHas-extend :
    (k c : ℕ) (ws : List Text)
    → NoneHas k ws
    → has_char k (c ∷ []) ≡ false
    → NoneHas k (extend c ws)
NoneHas-extend k c [] h e = (e, tt)
NoneHas-extend k c (w ∷ ws) (h, hs) e = (ground arith, hs)

pub NoneHas-split_on : (k : ℕ) (s : Text) → NoneHas k (split_on k s)
unfolding split_on
NoneHas-split_on k [] = (refl, tt)
NoneHas-split_on k (c ∷ s) = elim (Bool-cases (c == k)) [
  | inl e ↦ rw e (refl, NoneHas-split_on k s)
  | inr e ↦ rw e (NoneHas-extend k c (split_on k s) (NoneHas-split_on k s) (ground (arith, e)))
]

pub NoneHas-append :
    (k : ℕ) (ws vs : List Text) → NoneHas k ws → NoneHas k vs → NoneHas k (ws ++ vs)
NoneHas-append k [] vs h g = g
NoneHas-append k (w ∷ ws) vs (h, hs) g = (h, NoneHas-append k ws vs hs g)

pub NoneHas-reverse : (k : ℕ) (ws : List Text) → NoneHas k ws → NoneHas k (reverse ws)
NoneHas-reverse k [] h = tt
NoneHas-reverse k (w ∷ ws) (h, hs) =
    rw (reverse-cons w ws)
      (NoneHas-append k (reverse ws) (w ∷ []) (NoneHas-reverse k ws hs) (h, tt))
