-- ===== src/Connectivity/Ip/Tests.antt =====
-- Runs of the reading and writing of addresses.
use peer_application_runtime.Base.{◌≡◌, refl, some, none}
use peer_application_runtime.Base.Text.{codes}
use peer_application_runtime.Connectivity.Ip.Text.{
  split, every, has_char, is_digits, read_decimal, read_hextets,
}
use peer_application_runtime.Connectivity.Ip.{read_v4, read_v6}

read_v4_lem : read_v4 (codes "10.0.1.255") ≡ some 167772671
unfolding read_v4 split is_digits every has_char read_decimal
read_v4_lem = refl

read_v4_zero : read_v4 (codes "10.0.01.255") ≡ none
unfolding read_v4 split is_digits every has_char read_decimal
read_v4_zero = refl

read_v6_lem : read_v6 (codes "fd00::1") ≡ some 336294682933583715844663186250927177729
unfolding read_v6 read_v4 split is_digits every has_char read_decimal read_hextets
read_v6_lem = refl
