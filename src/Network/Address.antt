-- ===== src/Network/Address.antt =====
-- The addresses that the pool hands out: `format!("10.0.0.{octet}")` of network/ipam.rs tells octets
-- apart.
use Prim.Native.Char.{code}
use text.Mathlib.TextLemmas.{append_cancel_left}
use clawstainer.Base.{
  ℕ, zero, suc, ◌+◌, ◌-◌, ◌*◌, ◌<◌, String, ◌≡◌, refl, sym, ap, ◌∙◌, Bool, true, ◌&&◌, arith,
  nat_eq,
}
use clawstainer.Base.Decimal.{decimal}
use clawstainer.Network.{octet_ip}

read_from : ℕ → String → ℕ
read_from acc String.[] = acc
read_from acc (String.◌∷◌ c s) = read_from (acc * 10 + (code c - 48)) s

reads_back : ℕ → Bool
reads_back zero = true
reads_back (suc n) = nat_eq (read_from 0 (decimal n)) n && reads_back n

reads_back_sound : (k n : ℕ) → reads_back k ≡ true → n < k → read_from 0 (decimal n) ≡ n
unfolding reads_back
reads_back_sound zero n h lt = elim lt [ ]
reads_back_sound (suc k) n h lt = ground (arith, reads_back_sound k n)

octets_read_back : reads_back 256 ≡ true
unfolding reads_back read_from decimal
octets_read_back = refl

-- Two octets with one address are the same octet.
pub octet_ip_inj : (m n : ℕ) → m < 256 → n < 256 → octet_ip m ≡ octet_ip n → m ≡ n
unfolding octet_ip
octet_ip_inj m n hm hn e =
    sym (reads_back_sound 256 m octets_read_back hm)
    ∙ ap (read_from 0) (append_cancel_left "10.0.0." (decimal m) (decimal n) e)
    ∙ reads_back_sound 256 n octets_read_back hn
