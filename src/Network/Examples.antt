-- ===== src/Network/Examples.antt =====
-- The theorems on the network's reads, at a router and at a name with a command in it.
use adbq.Prelude.{false, ◌≡◌, refl, ◌⊎◌, arith, [], ◌∷◌, ◌++◌, some, Bool, Text, codes}
use adbq.CommandText.Shell.{shell_words}
use adbq.Network.{host_lan_ips, get_proxy, is_dotted_ipv4, first_n_lines, first_field}
use adbq.Network.Gateway.{
  hex_le, ipv4_text, hex_le_to_ipv4, parse_proc_route_gateway, hex_le_to_ipv4-hex_le,
}
use adbq.Network.Lookup.{safe_host, hosts_cat_remote, dns_lookup_commands, match_hosts_lines}
use adbq.Network.Safe.{dns_lookup_commands-words}

abbrev hostile : Text
hostile = codes "a.b; reboot"

abbrev shown : Text → Bool → Text
shown cmd su = cmd

dns_lookup_commands-words_example :
    ((safe_host hostile ≡ []) × (dns_lookup_commands hostile shown ≡ []))
    ⊎ ((ping : Text) × (ns : Text) × (dns_lookup_commands hostile shown
          ≡ hosts_cat_remote
            ∷ (ping ++ codes " 2>&1")
            ∷ (codes "command -v nslookup >/dev/null 2>&1 && " ++ (ns ++ codes " 2>&1"))
            ∷ [])
        × (shell_words ping
            ≡ some (
                codes "ping"
                ∷ codes "-c"
                ∷ codes "1"
                ∷ codes "-W"
                ∷ codes "2"
                ∷ safe_host hostile
                ∷ []))
        × (shell_words ns ≡ some (codes "nslookup" ∷ safe_host hostile ∷ [])))
dns_lookup_commands-words_example = dns_lookup_commands-words hostile shown

routed :
    parse_proc_route_gateway
      (codes "Iface Destination Gateway\nwlan0 0002A8C0 00000000\nwlan0 00000000 0102A8C0 0003\n")
    ≡ codes "192.168.2.1"
unfolding parse_proc_route_gateway adbq.Network.Gateway.first_gateway adbq.Strings.split
    adbq.Strings.fields adbq.Prelude.text_eq hex_le_to_ipv4 adbq.Network.Gateway.parse_hex_byte
    adbq.Track.hex_value adbq.Decimal.decimal
routed = refl

overridden :
    match_hosts_lines
      (codes "@@FILE@@ /system/etc/hosts\n# local\n10.0.2.2 x Api.test # api.test\n")
      (codes "api.TEST")
    ≡ codes "10.0.2.2  (/system/etc/hosts)"
unfolding match_hosts_lines adbq.Prelude.join adbq.Strings.split adbq.Prelude.text_eq
    adbq.Strings.trim_space adbq.Prelude.has_prefix adbq.Strings.fields adbq.Strings.to_lower
overridden = refl

-- addresses in the device's network come first
same_net :
    host_lan_ips (some (codes "10.0.0.2" ∷ codes "192.168.2.7" ∷ [])) (codes "192.168.2.40")
    ≡ codes "192.168.2.7" ∷ codes "10.0.0.2" ∷ []
unfolding host_lan_ips adbq.Prelude.has_prefix adbq.Prelude.text_eq
same_net = refl

no_proxy : get_proxy (some (codes ":0\n")) ≡ some []
unfolding get_proxy adbq.Strings.trim_space adbq.Prelude.text_eq
no_proxy = refl

too_large : is_dotted_ipv4 (codes "10.0.0.256") ≡ false
unfolding is_dotted_ipv4 adbq.Strings.split adbq.Prelude.text_eq adbq.Decimal.atoi
too_large = refl

two_lines : first_n_lines (codes "a\nb\nc") 2 ≡ codes "a\nb"
unfolding first_n_lines adbq.Strings.split adbq.Prelude.join
two_lines = refl

one_field : first_field (codes " eth0: up") ≡ codes "eth0:"
unfolding first_field adbq.Strings.fields
one_field = refl
