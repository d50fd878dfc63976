-- ===== src/Util/Tests.antt =====
-- Names at the edges of `validate_server_name`, `is_ip_literal` and `parse_name`.
use matrix_federation_scanne.Prelude.{◌≡◌, refl, true, ◌∷◌, ◌++◌, none}
use matrix_federation_scanne.Prelude.Text.{codes}
use matrix_federation_scanne.Util.{validate_server_name, is_ip_literal, strip_port}
use matrix_federation_scanne.Util.Ip.{ip_address}

-- A label before the last one may end in a newline.
newline_in_label : validate_server_name (codes "foo" ++ 10 ∷ codes ".com") ≡ true
unfolding validate_server_name
newline_in_label = refl

newline_before_port : validate_server_name (codes "foo" ++ 10 ∷ codes ":80") ≡ true
unfolding validate_server_name
newline_before_port = refl

-- `is_ip_literal` takes an octet with a leading zero, and `ipaddress` does not.
leading_zero : (is_ip_literal (codes "01.2.3.4") ≡ true) × (ip_address (codes "01.2.3.4") ≡ none)
unfolding is_ip_literal ip_address
leading_zero = (refl, refl)

keeps_brackets : strip_port (codes "[::1]:8448") ≡ codes "[::1]"
unfolding strip_port
keeps_brackets = refl
