-- ===== src/Configurator/Private.antt =====
-- Which addresses isPrivate of pkg/driver/configurator.go takes for private ones.
use nifcloud_nas_csi_driver.Base.{
  ℕ, ◌+◌, ◌≤◌, ◌<◌, ◌≡◌, refl, ap, ◌∙◌, ◌↔◌, ◌⊎◌, inl, inr, Bool, true, false, ◌&&◌, [], ◌∷◌, ◌++◌,
  arith, ◌==◌, ==_iff, Bool-cases,
}
use nifcloud_nas_csi_driver.Base.Text.{
  Str, codes, str_eq, str_eq_iff, str_eq_refl, Lacks, byte_text, has_prefix,
}
use nifcloud_nas_csi_driver.Net.Ip.{Ip, IsIp, value}
use nifcloud_nas_csi_driver.Net.Notation.{
  ip_text, parse_ip-ip_text, byte_text-Lacks, byte_text-injective,
}
use nifcloud_nas_csi_driver.Net.Mask.{IsNet, contains, size, base}
use nifcloud_nas_csi_driver.Net.Mask.Range.{contains_iff}
use nifcloud_nas_csi_driver.Configurator.{is_private, block_172}

-- A text with one dot starts with another one that ends with its dot exactly if they are the same
-- in front of the dot.
dotted :
    (p t rest more : Str)
    → Lacks b'.' p
    → Lacks b'.' t
    → has_prefix (t ++ b'.' ∷ rest) (p ++ b'.' ∷ more) ≡ (str_eq t p && has_prefix rest more)
unfolding has_prefix str_eq
dotted [] [] rest more hp ht = ground arith
dotted [] (a ∷ t) rest more hp (h, ht) = ground arith
dotted (b ∷ p) [] rest more (h, hp) ht = ground arith
dotted (b ∷ p) (a ∷ t) rest more (h, hp) (k, ht) = ground (arith, dotted p t rest more hp ht)

text_eq : (n m : ℕ) → n < 256 → m < 256 → str_eq (byte_text n) (byte_text m) ≡ (n == m)
text_eq n m hn hm = elim (Bool-cases (n == m)) [
  | inl same ↦ rw (same, (==_iff n m).0 same) (str_eq_refl (byte_text m))
  | inr other ↦ elim (Bool-cases (str_eq (byte_text n) (byte_text m))) [
    | inl eq ↦ absurd (
        cc (
          other,
          (==_iff n m).1
              (byte_text-injective n m hn hm ((str_eq_iff (byte_text n) (byte_text m)).0 eq)),
        ))
    | inr ne ↦ rw (ne, other) refl
  ]
]

first_byte :
    (n m : ℕ) (rest more : Str)
    → n < 256
    → m < 256
    → has_prefix (byte_text n ++ b'.' ∷ rest) (byte_text m ++ b'.' ∷ more)
      ≡ (n == m && has_prefix rest more)
first_byte n m rest more hn hm =
    rw (dotted (byte_text m) (byte_text n) rest more (byte_text-Lacks m) (byte_text-Lacks n))
      (rw (text_eq n m hn hm) refl)

block_172-IsNet : IsNet block_172
block_172-IsNet = record {
  address = record {
    byte0 = omega arith;
    byte1 = omega arith;
    byte2 = omega arith;
    byte3 = omega arith;
  };
  bits = omega arith;
}

in_172 :
    (ip : Ip)
    → IsIp ip
    → (contains block_172 ip ≡ true) ↔ ((ip.b0 ≡ 172) × (16 ≤ ip.b1) × (ip.b1 < 32))
in_172 ip h = (
  (λ c. let (low, high) = iff.0 c in (omega arith, omega arith, omega arith)),
  λ (e, low, high). iff.1 (omega arith, omega arith),
)
  where
    iff :
        (contains block_172 ip ≡ true)
        ↔ ((base block_172 ≤ value ip) × (value ip < base block_172 + size block_172))
    iff = contains_iff block_172 ip block_172-IsNet h

tests_lem :
    (ip : Ip)
    → IsIp ip
    → (has_prefix (ip_text ip) (codes "192.168.") ≡ (ip.b0 == 192 && ip.b1 == 168))
      × (has_prefix (ip_text ip) (codes "10.") ≡ ip.b0 == 10)
      × (has_prefix (ip_text ip) (codes "172.") ≡ ip.b0 == 172)
unfolding ip_text byte_text has_prefix
tests_lem ip h = (
  first_byte ip.b0 192 _ (codes "168.") h.byte0 (omega arith)
      ∙ ap (λ x. ip.b0 == 192 && x)
          (first_byte ip.b1 168 _ [] h.byte1 (omega arith) ∙ true_right (ip.b1 == 168)),
  first_byte ip.b0 10 _ [] h.byte0 (omega arith) ∙ true_right (ip.b0 == 10),
  first_byte ip.b0 172 _ [] h.byte0 (omega arith) ∙ true_right (ip.b0 == 172),
)
  where
    true_right : (b : Bool) → (b && true) ≡ b
    true_right true = refl
    true_right false = refl

-- The text of an address is taken for a private one exactly if the address is in one of the three
-- blocks of RFC 1918: 10.0.0.0/8, 192.168.0.0/16 and 172.16.0.0/12.
pub is_private-ip_text :
    (ip : Ip)
    → IsIp ip
    → (is_private (ip_text ip) ≡ true) ↔ (
        (ip.b0 ≡ 10)
        ⊎ (((ip.b0 ≡ 192) × (ip.b1 ≡ 168)) ⊎ ((ip.b0 ≡ 172) × (16 ≤ ip.b1) × (ip.b1 < 32))))
unfolding is_private
is_private-ip_text ip h = rw (parse_ip-ip_text ip h) (ground (arith, tests_lem ip h, in_172 ip h))
