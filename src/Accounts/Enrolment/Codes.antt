-- ===== src/Accounts/Enrolment/Codes.antt =====
-- A recovery code as it is shown is one that `check_recovery_code` takes
-- (services/web/apps/accounts/totp.py).
use tmask_tt.Base.{
  ℕ, zero, suc, ◌+◌, ◌≡◌, refl, Bool, true, false, ◌&&◌, ◌||◌, some, List, [], ◌∷◌, ◌++◌, arith,
  ◌==◌, leb, is_some, length, if◌then◌else◌, get_elem?, all,
}
use tmask_tt.Base.Text.{Text, upper, upper_char, is_space}
use tmask_tt.Accounts.{User}
use tmask_tt.Accounts.Session.{
  Platform, RecoveryCode, normalize_recovery_code, use_code, check_recovery_code, unused_codes,
}
use tmask_tt.Accounts.Enrolment.{
  Source, delete_codes, format_code, draw_code, create_codes, generate_recovery_codes,
}

-- The digits that `token_hex` writes.
abbrev pub is_hex_digit : ℕ → Bool
is_hex_digit c = (leb b'0' c && leb c b'9') || (leb b'a' c && leb c b'f')

-- `token_hex(4)` gives eight digits, and `check_password` takes a text for its `make_password`.
pub record IsSource (E : Source) (P : Platform) : Type 0 where
  pub eight : (i : ℕ) → length (E.token_hex i) ≡ 8
  pub digits : (i : ℕ) → all is_hex_digit (E.token_hex i) ≡ true
  pub check_made : (i : ℕ) (t : Text) → P.check_password t (E.make_password i t) ≡ true

-- A character that normalising leaves as it is.
record IsPlain (c : ℕ) : Type 0 where
  solid : is_space c ≡ false
  no_dash : (c == b'-') ≡ false
  is_upper : upper_char c ≡ c

upper_char-IsPlain : (c : ℕ) → is_hex_digit c ≡ true → IsPlain (upper_char c)
upper_char-IsPlain c h = record {
  solid = ground arith;
  no_dash = ground arith;
  is_upper = ground arith;
}

normalize_plain :
    (a b c d e f g h : ℕ)
    → IsPlain a
    → IsPlain b
    → IsPlain c
    → IsPlain d
    → IsPlain e
    → IsPlain f
    → IsPlain g
    → IsPlain h
    → normalize_recovery_code (a ∷ b ∷ c ∷ d ∷ b'-' ∷ e ∷ f ∷ g ∷ h ∷ [])
      ≡ a ∷ b ∷ c ∷ d ∷ b'-' ∷ e ∷ f ∷ g ∷ h ∷ []
unfolding normalize_recovery_code
normalize_plain a b c d e f g h pa pb pc pd pe pf pg ph =
    rw
      (
        pa.solid, ph.solid, pa.is_upper, pb.is_upper, pc.is_upper, pd.is_upper, pe.is_upper,
        pf.is_upper, pg.is_upper, ph.is_upper, pa.no_dash, pb.no_dash, pc.no_dash, pd.no_dash,
        pe.no_dash, pf.no_dash, pg.no_dash, ph.no_dash,
      )
      refl

-- The code of a draw is in the form that `normalize_recovery_code` gives.
normalize_format :
    (t : Text)
    → length t ≡ 8
    → all is_hex_digit t ≡ true
    → normalize_recovery_code (format_code (upper t)) ≡ format_code (upper t)
unfolding format_code upper
normalize_format (a ∷ b ∷ c ∷ d ∷ e ∷ f ∷ g ∷ h ∷ []) n hex =
    let p = λ (x : ℕ) (q : is_hex_digit x ≡ true). upper_char-IsPlain x q in
    normalize_plain _ _ _ _ _ _ _ _ (p a (ground arith)) (p b (ground arith)) (p c (ground arith))
      (p d (ground arith)) (p e (ground arith)) (p f (ground arith)) (p g (ground arith))
      (p h (ground arith))
normalize_format _ n hex = absurd (omega arith)

module _ (E : Source) (P : Platform) (law : IsSource E P) (k now : ℕ) where
  use_code-append :
      (code : Text) (xs ys : List RecoveryCode)
      → is_some (use_code P k code now ys).0 ≡ true
      → is_some (use_code P k code now (xs ++ ys)).0 ≡ true
  unfolding use_code
  use_code-append code [] ys h = h
  use_code-append code (c ∷ xs) ys h = ground (arith, use_code-append code xs ys h)

  -- Each text of the loop is good for a row of the loop.
  use_code-create_codes :
      (left i n : ℕ) (code : Text)
      → get_elem? (create_codes E left i k).0 n ≡ some code
      → is_some (use_code P k code now (create_codes E left i k).1).0 ≡ true
  unfolding create_codes use_code
  use_code-create_codes zero i n code h = cc
  use_code-create_codes (suc left) i zero code h = ground (arith, law.check_made i (draw_code E i))
  use_code-create_codes (suc left) i (suc n) code h =
      ground (arith, use_code-create_codes left (i + 1) n code h)

  -- Each text of the loop is the code of a draw.
  get_elem?-create_codes :
      (left i n : ℕ) (code : Text)
      → get_elem? (create_codes E left i k).0 n ≡ some code
      → (m : ℕ) × (code ≡ draw_code E m)
  unfolding create_codes
  get_elem?-create_codes zero i n code h = cc
  get_elem?-create_codes (suc left) i zero code h = (i, cc)
  get_elem?-create_codes (suc left) i (suc n) code h = get_elem?-create_codes left (i + 1) n code h

  normalize-draw_code : (m : ℕ) → normalize_recovery_code (draw_code E m) ≡ draw_code E m
  unfolding draw_code
  normalize-draw_code m = normalize_format (E.token_hex m) (law.eight m) (law.digits m)

-- A recovery code that was generated for a user and not used yet is taken as it was shown.
pub check-generate :
    (E : Source) (P : Platform)
    → IsSource E P
    → (u : User) (now n : ℕ) (code : Text) (codes : List RecoveryCode)
    → get_elem? (generate_recovery_codes E u.pk codes).0 n ≡ some code
    → is_some (check_recovery_code P u code now (generate_recovery_codes E u.pk codes).1).0 ≡ true
unfolding check_recovery_code generate_recovery_codes
check-generate E P law u now n code codes h =
    let (m, drawn) = get_elem?-create_codes E P law u.pk now 10 0 n code h in
    let normal : normalize_recovery_code code ≡ code =
      rw drawn (normalize-draw_code E P law u.pk now m) in
    rw normal (
      use_code-append E P law u.pk now code (delete_codes u.pk codes) (create_codes E 10 0 u.pk).1
        (use_code-create_codes E P law u.pk now 10 0 n code h))

unused_codes-append :
    (j : ℕ) (xs ys : List RecoveryCode)
    → unused_codes j (xs ++ ys) ≡ unused_codes j xs + unused_codes j ys
unfolding unused_codes
unused_codes-append j [] ys = omega arith
unused_codes-append j (c ∷ xs) ys = omega (arith, unused_codes-append j xs ys)

unused_codes-create_codes :
    (E : Source) (j k left i : ℕ)
    → unused_codes j (create_codes E left i k).1 ≡ (if k == j then left else 0)
unfolding unused_codes create_codes
unused_codes-create_codes E j k zero i = ground arith
unused_codes-create_codes E j k (suc left) i =
    ground (arith, unused_codes-create_codes E j k left (i + 1))

pub unused_codes-delete_codes :
    (j k : ℕ) (codes : List RecoveryCode)
    → unused_codes j (delete_codes k codes) ≡ (if k == j then 0 else unused_codes j codes)
unfolding unused_codes delete_codes
unused_codes-delete_codes j k [] = ground arith
unused_codes-delete_codes j k (c ∷ codes) = ground (arith, unused_codes-delete_codes j k codes)

pub unused_codes-generate :
    (E : Source) (j k : ℕ) (codes : List RecoveryCode)
    → unused_codes j (generate_recovery_codes E k codes).1
      ≡ (if k == j then 10 else unused_codes j codes)
unfolding generate_recovery_codes
unused_codes-generate E j k codes = ground (
  arith,
  unused_codes-append j (delete_codes k codes) (create_codes E 10 0 k).1,
  unused_codes-delete_codes j k codes,
  unused_codes-create_codes E j k 10 0,
)
