-- ===== src/Tests/Binding.antt =====
-- Two servers in one process to which systemd passed a socket.
use symbolserver.Prelude.{◌≤◌, ◌≡◌, refl, [], ◌∷◌}
use symbolserver.Prelude.Map
use symbolserver.Prelude.Order.{list_ord, nat_ord}
use symbolserver.Errors.{ok}
use symbolserver.Text.{codes, from_str_radix, read_nonempty, read_digits, push_digit, to_digit}
use symbolserver.Config.{
  default_config, get_server_socket_addr, get_server_host, get_server_port, is_docker,
}
use symbolserver.Utils.Systemd.{Vars, listen_fds, take_fd, get_systemd_fd}
use symbolserver.Api.Binding.{
  use_config, at_fd, at_host, config_target, bind_target, bind_all, count_fds, count_fds-bind_all,
}
use symbolserver.Tests.Config.{out}

abbrev vars : Vars
vars = (listen_fds, codes "1") ∷ []

-- The first gets the descriptor, the second the address of the configuration.
bind_all_run :
    bind_all out default_config (use_config ∷ use_config ∷ []) vars
    ≡ ok (at_fd 3) ∷ ok (at_host (codes "127.0.0.1") 3000) ∷ []
unfolding bind_all bind_target config_target get_systemd_fd take_fd from_str_radix read_nonempty
    read_digits push_digit to_digit get_server_socket_addr get_server_host get_server_port is_docker
    Map.get Map.remove
bind_all_run = refl

count_fds-bind_all_example :
    count_fds (bind_all out default_config (use_config ∷ use_config ∷ []) vars) ≤ 1
count_fds-bind_all_example =
    count_fds-bind_all out default_config (use_config ∷ use_config ∷ []) vars
