-- ===== src/Examples/Blocks.antt =====
-- The division of a network and the recommended block at concrete inputs.
use nifcloud_nas_csi_driver.Base.{
  ℕ, zero, suc, ◌+◌, ◌-◌, ◌*◌, ◌/◌, ◌%◌, ◌^◌, ◌≤◌, ◌<◌, ◌≡◌, refl, sym, ap, ap₂, ◌∙◌, subst, ◌≢◌,
  ◌↔◌, ◌⊎◌, inl, inr, Bool, true, false, not, ◌&&◌, ◌||◌, Option, none, some, List, [], ◌∷◌, ◌++◌,
  map, append-nil, append_assoc, arith, ltb, leb, ◌==◌, if◌then◌else◌, ==_iff, Bool-cases,
  Option-cases, length, take, drop, get_elem?, All, In, In-append_left, In-append_right, In-snoc,
  bit_and,
}
use nifcloud_nas_csi_driver.Base.Text.{Str, codes, str_eq, split, cut, atoi, byte_text, digits_from}
use nifcloud_nas_csi_driver.Base.Outcome.{Outcome, ok}
use nifcloud_nas_csi_driver.Base.Int.{ℤ, pos, negsuc, ◌≤ℤ◌, ◌<ℤ◌, ltb_ℤ}
use nifcloud_nas_csi_driver.Net.Ip.{Ip, IsIp, value}
use nifcloud_nas_csi_driver.Net.Notation.{Cidr, parse_ip, parse_cidr}
use nifcloud_nas_csi_driver.Net.Mask.{IpNet, IsNet, contains, base, size}
use nifcloud_nas_csi_driver.Divs.{
  CidrDivs, divide_net, drop_with_ip, drop_with_ip_range, is_dev_in_range, compare_ip,
}
use nifcloud_nas_csi_driver.Divs.Slices.{rest_of}
use nifcloud_nas_csi_driver.Divs.Order.{Above}
use nifcloud_nas_csi_driver.Divs.Tiles.{Tiles, divide_net-Tiles, Tiles_cover}
use nifcloud_nas_csi_driver.Divs.Drops.{drop_with_ip-rest_of, drop_with_ip_range-rest_of}
use nifcloud_nas_csi_driver.Divs.Recommend.{
  Lan, RdbInstance, IpAddressPool, gather, net_text, lan_net, recommend_cidr,
}
use nifcloud_nas_csi_driver.Divs.Recommend.Steps.{IsPool}
use nifcloud_nas_csi_driver.Divs.Recommend.Avoids.{MissesRdbs, MissesPools, MissesStatics}
use nifcloud_nas_csi_driver.Divs.Recommend.Choice.{IsPart, recommend_cidr-Misses}

abbrev at : ℕ → ℕ → IpNet
at b ones = record { ip = record { b0 = 10; b1 = 0; b2 = 0; b3 = b }; ones = ones }

at_0 : IsNet (at 0 24)
at_0 = record {
  address = record {
    byte0 = omega arith;
    byte1 = omega arith;
    byte2 = omega arith;
    byte3 = omega arith;
  };
  bits = omega arith;
}

at_128 : IsNet (at 128 25)
at_128 = record {
  address = record {
    byte0 = omega arith;
    byte1 = omega arith;
    byte2 = omega arith;
    byte3 = omega arith;
  };
  bits = omega arith;
}

half_0 : IsNet (at 0 25)
half_0 = record { address = at_0.address; bits = omega arith }

halves : divide_net (at 0 24) (pos 1) ≡ ok (at 0 25 ∷ at 128 25 ∷ [])
unfolding divide_net nifcloud_nas_csi_driver.Net.Mask.mask_ip nifcloud_nas_csi_driver.Net.Ip.inc_ip
    nifcloud_nas_csi_driver.Net.Mask.end_ip
halves = refl

tiles_example :
    (length (at 0 25 ∷ at 128 25 ∷ []) ≡ 2)
    × Tiles 25 (base (at 0 24)) (at 0 25 ∷ at 128 25 ∷ []) (base (at 0 24) + size (at 0 24))
tiles_example = divide_net-Tiles (at 0 24) 1 (at 0 25 ∷ at 128 25 ∷ []) at_0 halves

abbrev tiled :
    Tiles 25 (base (at 0 24)) (at 0 25 ∷ at 128 25 ∷ []) (base (at 0 24) + size (at 0 24))
tiled = tiles_example.1

abbrev inside : Ip
inside = record { b0 = 10; b1 = 0; b2 = 0; b3 = 200 }

inside-IsIp : IsIp inside
inside-IsIp = record {
  byte0 = omega arith;
  byte1 = omega arith;
  byte2 = omega arith;
  byte3 = omega arith;
}

cover_example : (d : IpNet) × In d (at 0 25 ∷ at 128 25 ∷ []) × (contains d inside ≡ true)
cover_example = Tiles_cover inside tiled inside-IsIp (omega arith) (omega arith)

abbrev divs : CidrDivs
divs = record { cidr = at 0 24; mask_offset = pos 1; divs = at 0 25 ∷ at 128 25 ∷ [] }

divs-Above : Above (base (at 0 24)) divs.divs
divs-Above = (omega arith, half_0, (omega arith, at_128, tt))

parsed_200 : parse_ip (codes "10.0.0.200") ≡ some inside
unfolding parse_ip split atoi
parsed_200 = refl

parsed_0 : parse_ip (codes "10.0.0.0") ≡ some (at 0 24).ip
unfolding parse_ip split atoi
parsed_0 = refl

drop_example :
    drop_with_ip divs (codes "10.0.0.200")
    ≡ ok (record divs { divs = rest_of (λ n. contains n inside) divs.divs })
drop_example =
    drop_with_ip-rest_of divs (codes "10.0.0.200") inside (base (at 0 24)) parsed_200 divs-Above

drop_range_example :
    drop_with_ip_range divs (codes "10.0.0.0") (codes "10.0.0.200")
    ≡ ok (record divs { divs = rest_of (is_dev_in_range (at 0 24).ip inside) divs.divs })
drop_range_example =
    drop_with_ip_range-rest_of divs (codes "10.0.0.0") (codes "10.0.0.200") (at 0 24).ip inside
      (base (at 0 24)) parsed_0 parsed_200 (omega arith) divs-Above

-- A private LAN with a database, a router without pools, and a static address.
abbrev lan : Lan
lan = record { cidr_block = codes "10.0.0.0/24"; routers = codes "r" ∷ [] }

abbrev dbs : List RdbInstance
dbs = record { network_id = codes "net"; master_private_address = codes "10.0.0.130" } ∷ []

abbrev dhcp : Str → Outcome (List IpAddressPool × List Str)
dhcp router = ok ([], codes "10.0.0.200" ∷ [])

abbrev lan_cidr : Cidr
lan_cidr = record { ip = (at 0 24).ip; ones = 24 }

lan_parses : parse_cidr lan.cidr_block ≡ some lan_cidr
unfolding parse_cidr cut parse_ip split atoi
lan_parses = refl

lan_gathers : gather dhcp lan.routers [] [] ≡ ok ([], codes "10.0.0.200" ∷ [])
unfolding gather
lan_gathers = refl

no_pools : (p : IpAddressPool) → In p [] → IsPool p
no_pools p m = absurd m

recommended : recommend_cidr (codes "net") (ok lan) (ok dbs) dhcp ≡ ok (codes "10.0.0.96/27")
unfolding recommend_cidr parse_cidr cut parse_ip split atoi
    nifcloud_nas_csi_driver.Divs.new_cidr_divs nifcloud_nas_csi_driver.Divs.Recommend.choose_offset
    nifcloud_nas_csi_driver.Divs.Recommend.trim nifcloud_nas_csi_driver.Divs.drop_head_and_tail
    nifcloud_nas_csi_driver.Divs.Recommend.drop_rdbs str_eq drop_with_ip gather
    nifcloud_nas_csi_driver.Divs.Recommend.drop_pools
    nifcloud_nas_csi_driver.Divs.Recommend.drop_statics
    nifcloud_nas_csi_driver.Divs.Recommend.choose nifcloud_nas_csi_driver.Base.Int.◌-ℤ◌ byte_text
    digits_from net_text nifcloud_nas_csi_driver.Divs.Recommend.offset_loop divide_net
    nifcloud_nas_csi_driver.Divs.divs_from nifcloud_nas_csi_driver.Divs.index_from
    nifcloud_nas_csi_driver.Divs.without_index nifcloud_nas_csi_driver.Net.Ip.inc_ip
    nifcloud_nas_csi_driver.Net.Ip.ip_eq contains nifcloud_nas_csi_driver.Net.Mask.end_ip
    nifcloud_nas_csi_driver.Net.Mask.mask_ip nifcloud_nas_csi_driver.Net.Notation.ip_text
recommended = refl

some_text : codes "10.0.0.96/27" ≢ []
some_text e = cc

recommend_example :
    (n : IpNet) × (codes "10.0.0.96/27" ≡ net_text n)
    × IsPart (lan_net lan_cidr) n
    × MissesRdbs (codes "net") dbs n
    × MissesPools [] n
    × MissesStatics (codes "10.0.0.200" ∷ []) n
recommend_example =
    recommend_cidr-Misses (codes "net") lan lan_cidr dbs [] (codes "10.0.0.200" ∷ []) dhcp
      lan_parses lan_gathers no_pools (codes "10.0.0.96/27") recommended some_text
