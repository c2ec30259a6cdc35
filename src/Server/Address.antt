-- ===== src/Server/Address.antt =====
-- `normalizeAddr` and the address of `NewServer`.
use Prim.Native.Char.{code}
use Prim.Native.String.{[], ◌∷◌}
use a2a_registry.Common.{String, not, ◌&&◌, Option, none, some, ◌==◌, nat_eq, if◌then◌else◌}
use a2a_registry.Platform.{Std}

abbrev any_host : String
any_host = "0.0.0.0"

-- The text after a colon that stands first and is not the whole; none if there is no such colon.
unfoldable pub after_colon : String → Option String
after_colon [] = none
after_colon (c ∷ rest) = if nat_eq (code c) b':' && not (rest == "") then some rest else none

module _ (std : Std) where
  abbrev port_only : String → String
  port_only addr = if std.atoi_ok addr then std.join_host_port any_host addr else "0.0.0.0:8082"

  abbrev without_host : String → Option String → String
  without_host addr none = port_only addr
  without_host addr (some port) =
      if std.atoi_ok port then std.join_host_port any_host port else port_only addr

  abbrev with_parts : String → Option (String × String) → String
  with_parts addr none = without_host addr (after_colon addr)
  with_parts addr (some (host, port)) =
      std.join_host_port (if host == "" then any_host else host) port

  unfoldable pub normalize_addr : String → String
  unfolding after_colon
  normalize_addr addr = with_parts addr (std.split_host_port addr)

  -- `NewServer` normalizes only an address that cannot be split.
  unfoldable pub resolve_addr : String → String
  unfolding normalize_addr
  resolve_addr addr = elim (std.split_host_port addr) [ none ↦ normalize_addr addr | some _ ↦ addr ]
