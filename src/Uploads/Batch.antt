-- ===== src/Uploads/Batch.antt =====
-- The destination of each file of a batch is a path that the form would accept
-- (services/web/apps/transfers/views.py, `transfer_create`; forms.py).
use Prim.Native.Char.{code}
use mathlib.Core.List.{append_assoc, append-nil}
use text.Mathlib.TextLemmas.{nil-append, cons-append}
use tmask_tt.Base.{
  ℕ, ◌≡◌, refl, ap, ◌∙◌, String, ◌<>◌, Bool, true, false, ◌||◌, none, List, [], ◌∷◌, ◌++◌, arith,
  any,
}
use tmask_tt.Base.Str.{ends_with_char}
use tmask_tt.Base.Text.{Text, codes, has_char, has_prefix, replace_char, split_on}
use tmask_tt.Transfers.Paths.{
  is_control, is_dots, slash, backslash, parts, validate_transfer_path, validate_source_filename,
  split_on_last,
}

pub any-append {ℓ} :
    {A : Type ℓ} (p : A → Bool) (xs ys : List A) → any p (xs ++ ys) ≡ any p xs || any p ys
any-append p [] ys = refl
any-append p (x ∷ xs) ys = ground (arith, any-append p xs ys)

replace_char-append :
    (k : ℕ) (new s t : Text)
    → replace_char k new (s ++ t) ≡ replace_char k new s ++ replace_char k new t
unfolding replace_char
replace_char-append k new [] t = refl
replace_char-append k new (c ∷ s) t = ground (
  arith,
  replace_char-append k new s t,
  append_assoc new (replace_char k new s) (replace_char k new t),
)

replace_char_none : (k : ℕ) (new s : Text) → has_char k s ≡ false → replace_char k new s ≡ s
unfolding replace_char
replace_char_none k new [] h = refl
replace_char_none k new (c ∷ s) h = ground (arith, replace_char_none k new s)

codes-append : (s t : String) → codes (s <> t) ≡ codes s ++ codes t
codes-append String.[] t = ap codes (nil-append t)
codes-append (String.◌∷◌ c s) t =
    ap codes (cons-append c s t) ∙ ap (◌∷◌ (code c)) (codes-append s t)

codes_end :
    (k : ℕ) (s : String) → ends_with_char k s ≡ true → (d : Text) × (codes s ≡ d ++ (k ∷ []))
unfolding ends_with_char
codes_end k String.[] h = cc
codes_end k (String.◌∷◌ c String.[]) h = ([], ground arith)
codes_end k (String.◌∷◌ c (String.◌∷◌ d s)) h =
    let (rest, e) = codes_end k (String.◌∷◌ d s) h in (code c ∷ rest, ap (◌∷◌ (code c)) e)

-- A path behind a slash, taken apart.
parts-append :
    (d name : Text)
    → has_char slash name ≡ false
    → has_char backslash name ≡ false
    → parts ((d ++ (slash ∷ [])) ++ name)
      ≡ split_on slash (replace_char backslash (slash ∷ []) d) ++ (name ∷ [])
unfolding parts replace_char
parts-append d name no_slash no_backslash =
    let norm = replace_char backslash (slash ∷ []) in
    ap (split_on slash) (
      ap norm (append_assoc d (slash ∷ []) name)
      ∙ replace_char-append backslash (slash ∷ []) d (slash ∷ name)
      ∙ ap (λ n. norm d ++ (slash ∷ n))
          (replace_char_none backslash (slash ∷ []) name no_backslash))
    ∙ split_on_last slash (norm d) name no_slash

has_dash-append :
    (d name : Text)
    → has_prefix (b'-' ∷ []) ((d ++ (slash ∷ [])) ++ name)
      ≡ has_prefix (b'-' ∷ []) (d ++ (slash ∷ []))
has_dash-append [] name = refl
has_dash-append (c ∷ d) name = refl

-- Behind a directory that the form takes, ending in a slash, a file name that it takes makes a path that it
-- takes too.
validate_transfer_path-append :
    (d name : Text)
    → validate_transfer_path (d ++ (slash ∷ [])) ≡ none
    → validate_source_filename name ≡ none
    → validate_transfer_path ((d ++ (slash ∷ [])) ++ name) ≡ none
unfolding validate_transfer_path validate_source_filename
validate_transfer_path-append d name dir file =
    let no_slash : has_char slash name ≡ false = ground arith in
    let no_backslash : has_char backslash name ≡ false = ground arith in
    ground (
      arith,
      has_dash-append d name,
      any-append is_control (d ++ (slash ∷ [])) name,
      parts-append d name no_slash no_backslash,
      parts-append d [] refl refl,
      append-nil (d ++ (slash ∷ [])),
      any-append is_dots (split_on slash (replace_char backslash (slash ∷ []) d)) (name ∷ []),
      any-append is_dots (split_on slash (replace_char backslash (slash ∷ []) d)) ([] ∷ []),
    )

-- The destination of a file in a batch: the directory of the form with the name of the file behind it.
pub validate_batch_path :
    (dest name : String)
    → ends_with_char b'/' dest ≡ true
    → validate_transfer_path (codes dest) ≡ none
    → validate_source_filename (codes name) ≡ none
    → validate_transfer_path (codes (dest <> name)) ≡ none
validate_batch_path dest name slashed dir file =
    let (d, e) = codes_end b'/' dest slashed in
    rw (codes-append dest name, e) (validate_transfer_path-append d (codes name) (rw e at dir) file)
