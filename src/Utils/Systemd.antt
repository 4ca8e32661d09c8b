-- ===== src/Utils/Systemd.antt =====
-- `get_systemd_fd` of src/utils.rs, over the environment variables of the process.
use symbolserver.Prelude.{ℕ, ◌^◌, ◌≡◌, refl, not, ◌==◌, ◌||◌, if◌then◌else◌}
use symbolserver.Prelude.{Option, none, some, []}
use symbolserver.Prelude.Order.{◌=?◌, list_ord, nat_ord}
use symbolserver.Prelude.Map
use symbolserver.Prelude.Map.{Map}
use symbolserver.Errors.{Str, Result, ok, err, bad_env_var}
use symbolserver.Text.{codes, from_str_radix}

abbrev pub Vars : Type 0
Vars = Map Str Str

abbrev pub listen_fds : Str
listen_fds = codes "LISTEN_FDS"

-- `SD_LISTEN_FDS_START`
abbrev pub sd_listen_fds_start : ℕ
sd_listen_fds_start = 3

-- The value of the variable, as a number.
unfoldable pub take_fd : Option ℕ → Vars → Result (Option ℕ) × Vars
take_fd none vars = (err (bad_env_var listen_fds (codes "Not an integer")), vars)
take_fd (some fds) vars =
    if not (fds == 1)
    then (err (bad_env_var listen_fds (codes "Exactly one socket needs to be passed")), vars)
    else (ok (some sd_listen_fds_start), Map.remove listen_fds vars)

unfoldable pub get_systemd_fd : Vars → Result (Option ℕ) × Vars
get_systemd_fd vars = elim (Map.get listen_fds vars) [
  | none ↦ (ok none, vars)
  | some var ↦
      if var =? codes "0" || var =? []
      then (ok none, vars)
      else take_fd (from_str_radix 10 (2 ^ 32) var) vars
]

-- Once the variable is gone there is no descriptor.
pub get_systemd_fd-remove :
    (vars : Vars) → Map.get listen_fds vars ≡ none → get_systemd_fd vars ≡ (ok none, vars)
unfolding get_systemd_fd
get_systemd_fd-remove vars gone = rw (gone, get_systemd_fd) refl
