-- ===== src/Gateway/Flows.antt =====
-- The priorities of flows in gateway/youyeetoo_eth_gateway.c.
use youyeetoo_rk3588_toolkit.Prelude.{
  ℕ, ◌/◌, ◌%◌, ◌<◌, ◌≡◌, ◌↔◌, refl, Bool, true, ◌||◌, arith, ◌==◌,
}
use youyeetoo_rk3588_toolkit.Gateway.Packets.{flow_priority, is_pair, ip_in_10_2_1, ip_value, host}

-- ip_in_10_2_1 accepts exactly the addresses 10.2.c.d, of which those of 10.2.1.0/24 are a part.
pub ip_in_10_2_1-network :
    (ip : ℕ)
    → (ip_in_10_2_1 ip ≡ true)
      ↔ ((c : ℕ) × (d : ℕ) × (c < 256) × (d < 256) × (ip ≡ ip_value 10 2 c d))
unfolding ip_in_10_2_1 ip_value
ip_in_10_2_1-network ip = (
  (λ h. (ip % 65536 / 256, ip % 256, omega arith, omega arith, ground arith)),
  (λ (c, d, hc, hd, e). ground arith),
)

or_comm : (a b : Bool) → (a || b) ≡ (b || a)
or_comm a b = ground arith

is_pair_swap : (a b x y : ℕ) → is_pair a b x y ≡ is_pair b a x y
unfolding is_pair
is_pair_swap a b x y = ground arith

-- Both directions of a flow have the same priority and name.
pub flow_priority_comm : (src dst : ℕ) → flow_priority src dst ≡ flow_priority dst src
unfolding flow_priority
flow_priority_comm src dst =
    rw
      (
        or_comm (src == host 36) (dst == host 36),
        is_pair_swap src dst (host 38) (host 50),
        or_comm (ip_in_10_2_1 src) (ip_in_10_2_1 dst),
        is_pair_swap src dst (host 35) (host 51),
        is_pair_swap src dst (host 39) (host 52),
        is_pair_swap src dst (host 37) (host 40),
      )
      refl
