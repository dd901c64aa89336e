-- ===== src/Accounts/Recovery.antt =====
-- The recovery codes (services/web/apps/accounts/totp.py, `check_recovery_code`): a code is good once.
use tmask_tt.Base.{ℕ, ◌≡◌, refl, ◌&&◌, List, [], ◌∷◌, arith, ◌==◌, is_some}
use tmask_tt.Base.Text.{Text}
use tmask_tt.Accounts.{User}
use tmask_tt.Accounts.Guessing.{count_if}
use tmask_tt.Accounts.Session.{Platform, RecoveryCode, unused_codes, use_code, check_recovery_code}

use_code_spends :
    (P : Platform) (j k : ℕ) (code : Text) (now : ℕ) (codes : List RecoveryCode)
    → unused_codes j codes
      ≡ count_if
          (is_some (use_code P k code now codes).0 && j == k)
          (unused_codes j (use_code P k code now codes).1)
unfolding unused_codes use_code
use_code_spends P j k code now [] = refl
use_code_spends P j k code now (c ∷ codes) = ground (arith, use_code_spends P j k code now codes)

-- A recovery code is good once: an accepted code leaves its user one unused code less, a refused one
-- leaves as many as there were, and no other user loses one.
pub check_recovery_code_spends :
    (P : Platform) (u : User) (raw : Text) (now j : ℕ) (codes : List RecoveryCode)
    → let (found, codes') = check_recovery_code P u raw now codes in
      unused_codes j codes ≡ count_if (is_some found && j == u.pk) (unused_codes j codes')
unfolding check_recovery_code
check_recovery_code_spends P u raw now j codes = use_code_spends P j u.pk _ now codes
