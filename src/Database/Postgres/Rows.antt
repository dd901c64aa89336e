-- ===== src/Database/Postgres/Rows.antt =====
-- The lines of data of a dump and the values that they hold (`_relay_lines` of
-- services/worker/modules/postgres/handler.py).
use mathlib.Core.List.{reverse, reverse-append, reverse-reverse, reverse-cons}
use tmask_tt.Base.{ℕ, ◌≡◌, refl, false, ◌||◌, List, [], ◌∷◌, ◌++◌, arith, ◌==◌}
use tmask_tt.Base.Text.{Text, has_char, join_with, strip_right, drop_while}
use tmask_tt.Base.Split.{NoneHas, split_on-join_with}
use tmask_tt.Database.Postgres.Stream.{values_of, line_of}

has_char-append : (k : ℕ) (s t : Text) → has_char k (s ++ t) ≡ (has_char k s || has_char k t)
has_char-append k [] t = refl
has_char-append k (c ∷ s) t = ground (arith, has_char-append k s t)

has_char-reverse : (k : ℕ) (s : Text) → has_char k s ≡ false → has_char k (reverse s) ≡ false
has_char-reverse k [] h = refl
has_char-reverse k (c ∷ s) h =
    rw (reverse-cons c s, has_char-append k (reverse s) (c ∷ []))
      (ground (arith, has_char-reverse k s))

drop_while_lem : (k : ℕ) (s : Text) → has_char k s ≡ false → drop_while (λ c. c == k) s ≡ s
unfolding drop_while
drop_while_lem k [] h = refl
drop_while_lem k (c ∷ s) h = ground arith

-- One character at the end of a text without it is stripped, and no more.
strip_right-append :
    (k : ℕ) (s : Text) → has_char k s ≡ false → strip_right (λ c. c == k) (s ++ (k ∷ [])) ≡ s
unfolding strip_right drop_while
strip_right-append k s h =
    rw (reverse-append s (k ∷ []))
      (rw (drop_while_lem k (reverse s) (has_char-reverse k s h)) ground (arith, reverse-reverse s))

has_char-join_with :
    (j k : ℕ) (ws : List Text)
    → (j == k) ≡ false
    → NoneHas k ws
    → has_char k (join_with j ws) ≡ false
unfolding join_with
has_char-join_with j k [] apart h = refl
has_char-join_with j k (w ∷ []) apart (h, none_more) = h
has_char-join_with j k (w ∷ v ∷ ws) apart (h, hs) =
    rw (has_char-append k w (j ∷ join_with j (v ∷ ws)), h, apart)
      (has_char-join_with j k (v ∷ ws) apart hs)

-- A row whose values hold no tab and no end of line is read back as it was written.
pub values_of-line_of :
    (v : Text) (vs : List Text)
    → NoneHas b'\t' (v ∷ vs)
    → NoneHas b'\n' (v ∷ vs)
    → values_of (line_of (v ∷ vs)) ≡ v ∷ vs
unfolding values_of line_of
values_of-line_of v vs no_tab no_end =
    rw
      (strip_right-append b'\n' (join_with b'\t' (v ∷ vs))
        (has_char-join_with b'\t' b'\n' (v ∷ vs) refl no_end))
      (split_on-join_with b'\t' v vs no_tab)
