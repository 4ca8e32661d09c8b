-- ===== src/Api/Binding.antt =====
-- src/api/server.rs: what `ApiServer::run` listens on for its `BindOptions`. Opening a listener is hyper's and the system's.
use symbolserver.Prelude.Map
use symbolserver.Prelude.Order.{◌=?◌, list_ord, nat_ord}
use symbolserver.Prelude.{Option-cases, Bool-cases, inl, inr, ◌⊎◌, ◌||◌, ◌==◌, arith}
use symbolserver.Prelude.{ℕ, ◌+◌, ◌≤◌, ◌^◌, ◌≡◌, refl, Option, none, some, List, [], ◌∷◌}
use symbolserver.Errors.{Str, Result, ok, err, bad_env_var, panic, undefined, ◌>>=◌}
use symbolserver.Text.{codes, from_str_radix}
use symbolserver.Utils.Systemd.{
  Vars, listen_fds, sd_listen_fds_start, take_fd, get_systemd_fd, get_systemd_fd-remove,
}
use symbolserver.Config.{ℤ, Config, Outside, get_server_socket_addr}

pub data BindOptions : Type 0 where
  use_config : BindOptions
  bind_to_addr : Str → BindOptions
  bind_to_fd : ℤ → BindOptions

-- What a listener is made of: an address, a host and a port, a duplicate of a descriptor, or the
-- descriptor that systemd passed itself.
pub data Target : Type 0 where
  at_addr : Str → Target
  at_host : Str → ℕ → Target
  at_copy : ℤ → Target
  at_fd : ℕ → Target

module _ {Region Level Duration : Type 0} (out : Outside Region Level Duration)
    (config : Config) where
  unfoldable pub config_target : Result (Option ℕ) → Result Target
  config_target found = do
    fd ← found
    elim fd [
      | some fd ↦ ok (at_fd fd)
      | none ↦ (do (host, port) ← get_server_socket_addr out config; ok (at_host host port))
    ]

  -- The choice of the listener, with the variables of the process behind it.
  unfoldable pub bind_target : BindOptions → Vars → Result Target × Vars
  bind_target (bind_to_addr addr) vars = (ok (at_addr addr), vars)
  bind_target (bind_to_fd fd) vars = (ok (at_copy fd), vars)
  bind_target use_config vars =
      let (found, vars') = get_systemd_fd vars in (config_target found, vars')

  -- One server after the other in the same process.
  unfoldable pub bind_all : List BindOptions → Vars → List (Result Target)
  bind_all [] vars = []
  bind_all (o ∷ rest) vars = let (t, vars') = bind_target o vars in t ∷ bind_all rest vars'

-- How often the descriptor itself is handed out.
abbrev pub is_fd : Result Target → ℕ
is_fd (ok (at_fd fd)) = 1
is_fd (ok (at_addr addr)) = 0
is_fd (ok (at_host host port)) = 0
is_fd (ok (at_copy fd)) = 0
is_fd (err e) = 0
is_fd panic = 0
is_fd undefined = 0

abbrev pub count_fds : List (Result Target) → ℕ
count_fds [] = 0
count_fds (t ∷ ts) = is_fd t + count_fds ts

module _ {Region Level Duration : Type 0} (out : Outside Region Level Duration)
    (config : Config) where
  abbrev IsGone : Vars → Type 0
  IsGone vars = Map.get listen_fds vars ≡ none

  config_target-none : is_fd (config_target out config (ok none)) ≡ 0
  unfolding config_target
  config_target-none = go (get_server_socket_addr out config)
    where
      go : (r : Result (Str × ℕ)) → is_fd (r >>= λ a. ok (at_host a.0 a.1)) ≡ 0
      go (ok a) = refl
      go (err e) = refl
      go panic = refl
      go undefined = refl

  -- Either the variables stay and there is no descriptor, or there is one and the variable is gone.
  systemd_cases :
      (vars : Vars)
      → ((r : Result (Option ℕ)) × (get_systemd_fd vars ≡ (r, vars))
          × (is_fd (config_target out config r) ≡ 0))
        ⊎ ((fd : ℕ) × (left : Vars) × (get_systemd_fd vars ≡ (ok (some fd), left)) × IsGone left)
  unfolding get_systemd_fd take_fd config_target
  systemd_cases vars = elim (Option-cases (Map.get listen_fds vars)) [
    | inl e ↦ inl (ok none, rw (e, get_systemd_fd) refl, config_target-none)
    | inr (var, e) ↦ elim (Bool-cases (var =? codes "0" || var =? [])) [
      | inl empty ↦ inl (ok none, rw (e, get_systemd_fd, empty) refl, config_target-none)
      | inr full ↦ elim (Option-cases (from_str_radix 10 (2 ^ 32) var)) [
        | inl bad ↦ inl (
          err (bad_env_var listen_fds (codes "Not an integer")),
          rw (e, get_systemd_fd, full, bad, take_fd) refl,
          refl,
        )
        | inr (fds, number) ↦ elim (Bool-cases (fds == 1)) [
          | inl one ↦ inr (
            sd_listen_fds_start,
            Map.remove listen_fds vars,
            rw (e, get_systemd_fd, full, number, take_fd, one) refl,
            Map.get-remove listen_fds listen_fds vars,
          )
          | inr more ↦ inl (
            err (bad_env_var listen_fds (codes "Exactly one socket needs to be passed")),
            rw (e, get_systemd_fd, full, number, take_fd, more) refl,
            refl,
          )
        ]
      ]
    ]
  ]

  config_target-some : (fd : ℕ) → is_fd (config_target out config (ok (some fd))) ≡ 1
  unfolding config_target
  config_target-some fd = refl

  count_fds-gone :
      (opts : List BindOptions) (vars : Vars)
      → IsGone vars
      → count_fds (bind_all out config opts vars) ≡ 0
  unfolding bind_all bind_target
  count_fds-gone [] vars gone = refl
  count_fds-gone (bind_to_addr addr ∷ opts) vars gone = omega (arith, count_fds-gone opts vars gone)
  count_fds-gone (bind_to_fd fd ∷ opts) vars gone = omega (arith, count_fds-gone opts vars gone)
  count_fds-gone (use_config ∷ opts) vars gone =
      rw (get_systemd_fd-remove vars gone)
        (omega (arith, config_target-none, count_fds-gone opts vars gone))

  -- However many servers a process runs, one after the other and with whatever options, at most one
  -- of them gets the descriptor itself that systemd passed.
  pub count_fds-bind_all :
      (opts : List BindOptions) (vars : Vars) → count_fds (bind_all out config opts vars) ≤ 1
  unfolding bind_all bind_target
  count_fds-bind_all [] vars = omega arith
  count_fds-bind_all (bind_to_addr addr ∷ opts) vars = omega (arith, count_fds-bind_all opts vars)
  count_fds-bind_all (bind_to_fd fd ∷ opts) vars = omega (arith, count_fds-bind_all opts vars)
  count_fds-bind_all (use_config ∷ opts) vars = elim (systemd_cases vars) [
    | inl (r, e, nothing) ↦ rw e (omega (arith, nothing, count_fds-bind_all opts vars))
    | inr (fd, left, e, gone) ↦
        rw e (omega (arith, config_target-some fd, count_fds-gone opts left gone))
  ]
