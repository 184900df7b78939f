-- ===== src/Fleet/Link.antt =====
-- oop_fleet/central_computer.cpp: the connection state of a combat submarine's CentralComputer.
use embedded_project_pc.Common.{ℕ, Option, none, some, Bool, true, false, []}
use embedded_project_pc.Common.Text.{Text}

-- `fd` is fd_, `none` where it is negative. The cached readings are numbers as on the wire.
pub record Link : Type 0 where
  pub fd : Option ℕ
  pub submarine_id : Text
  pub have_latest : Bool
  pub latest_timestamp : ℕ
  pub latest_temperature : ℕ
  pub latest_humidity : ℕ
  pub latest_light : ℕ
  pub latest_battery : ℕ
  pub latest_mode : ℕ

abbrev pub fresh_link : Link
fresh_link = record {
  fd = none;
  submarine_id = [];
  have_latest = false;
  latest_timestamp = 0;
  latest_temperature = 0;
  latest_humidity = 0;
  latest_light = 0;
  latest_battery = 0;
  latest_mode = 0;
}

unfoldable pub disconnect : Link → Link
disconnect l = record l { fd = none; have_latest = false }

unfoldable pub is_connected : Link → Bool
is_connected l = elim l.fd [ none ↦ false | some fd ↦ true ]

use_socket : Text → Link → Option ℕ → Link × Bool
use_socket submarine_id l none = (record l { fd = none }, false)
use_socket submarine_id l (some fd) = (record l { fd = some fd; submarine_id = submarine_id }, true)

-- The socket is what CcCore_LncConnect returns, `none` where it is negative. An open connection is
-- closed first.
unfoldable pub connect : Text → Option ℕ → Link → Link × Bool
unfolding use_socket
connect submarine_id socket l = elim l.fd [
  | none ↦ use_socket submarine_id l socket
  | some fd ↦ use_socket submarine_id (record l { fd = none; have_latest = false }) socket
]
