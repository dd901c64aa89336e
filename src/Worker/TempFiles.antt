-- ===== src/Worker/TempFiles.antt =====
-- Temporary files by their names: removing the one made last, and those that could not be written.
use mathlib.Core.List.{append_assoc}
use tmask_tt.Base.{
  ◌≡◌, refl, sym, ap, String, Bool, true, Option, none, some, List, [], ◌∷◌, ◌++◌, arith, str_eq,
  truthy, eq_iff, inl, inr, Bool-cases,
}
use tmask_tt.Worker.{World, Exn, err, remove, unlink_held}
use tmask_tt.Worker.Params.{Tools}

-- What documents `tempfile` of its names: they are not empty.
pub record NamesFiles (T : Tools) : Type 0 where
  pub names : (w : World) (suffix : String) → truthy (T.temp_name w suffix) ≡ true

pub str_eq_refl : (s : String) → str_eq s s ≡ true
str_eq_refl s = (eq_iff s s).1 refl

pub unlink_held_head :
    (p : String) (ps : List String) → truthy p ≡ true → unlink_held (some p) (p ∷ ps) ≡ ps
unfolding unlink_held
unlink_held_head p ps h = ground (arith, str_eq_refl p)

-- The files that a run has made and holds.
abbrev pub with_file : Option String → List String → List String
with_file none ps = ps
with_file (some p) ps = p ∷ ps

-- `bool(path)` of a path that is set.
abbrev pub is_named : Option String → Bool
is_named none = true
is_named (some p) = truthy p

module _ (T : Tools) where
  -- A file whose text could not be written.
  abbrev HasFailed : String → Type 0
  HasFailed path = (v : World) × (text : String) × (e : Exn) × (T.write_temp v path text ≡ err e)

  abbrev pub AreFailed : List String → Type 0
  AreFailed [] = Unit {0}
  AreFailed (p ∷ ps) = HasFailed p × AreFailed ps

  -- These files are the others with nothing in front of them but files that could not be written.
  abbrev pub Leftover : List String → List String → Type 0
  Leftover base temps = (left : List String) × AreFailed left × (temps ≡ left ++ base)

  pub AreFailed-append : (ps qs : List String) → AreFailed ps → AreFailed qs → AreFailed (ps ++ qs)
  AreFailed-append [] qs h h' = h'
  AreFailed-append (p ∷ ps) qs (failed, h) h' = (failed, AreFailed-append ps qs h h')

  -- Taking away a file that stands behind such files leaves the others and such files.
  remove_behind :
      (left : List String) (p : String) (base : List String)
      → AreFailed left
      → Leftover base (remove p (left ++ (p ∷ base)))
  unfolding remove
  remove_behind [] p base h = ([], tt, ground (arith, str_eq_refl p))
  remove_behind (q ∷ left) p base (failed, h) = elim (Bool-cases (str_eq q p)) [
    | inl same ↦ (
      left ++ (p ∷ []),
      AreFailed-append left (p ∷ []) h (rw ((eq_iff q p).0 same) at failed, tt),
      rw (remove, same) (sym (append_assoc left (p ∷ []) base)),
    )
    | inr other ↦
        let (left', h', e) = remove_behind left p base h in
        (q ∷ left', (failed, h'), rw (remove, other) (ap (λ ps. q ∷ ps) e))
  ]

  pub unlink_held_behind :
      (left : List String) (held : Option String) (base : List String)
      → AreFailed left
      → is_named held ≡ true
      → Leftover base (unlink_held held (left ++ with_file held base))
  unfolding unlink_held
  unlink_held_behind left none base h named = (left, h, refl)
  unlink_held_behind left (some p) base h named =
      rw (unlink_held, named) (remove_behind left p base h)
