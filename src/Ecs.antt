-- ===== src/Ecs.antt =====
-- ecs.rs: the client subnet that the configuration fixes, and its injection into queries.
use Prim.Native.Nat.{bit_and}
use dnsbuffer.Prelude.{
  ℕ, ◌-◌, ◌*◌, ◌%◌, ◌^◌, Option, none, some, ltb, if◌then◌else◌, ◌==◌, nat_eq, list_eq,
}
use dnsbuffer.Text.{Text, split_once, parse_uint, str}
use dnsbuffer.Message.{Hickory, Message, Edns, subnet, IpAddr, v4, v6}
use dnsbuffer.Resolver.{Result, ok, err}

pub record EcsSubnet : Type 0 where
  pub addr : IpAddr
  pub prefix : ℕ

-- `MAX << (width - prefix)` in `width` bits, and 0 for the prefix 0.
unfoldable pub mask : ℕ → ℕ → ℕ
mask width prefix = if prefix == 0 then 0 else (2 ^ width - 1) * 2 ^ (width - prefix) % 2 ^ width

unfoldable pub mask_ip : IpAddr → ℕ → EcsSubnet
mask_ip (v4 bits) prefix = record { addr = v4 (bit_and bits (mask 32 prefix)); prefix = prefix }
mask_ip (v6 bits) prefix = record { addr = v6 (bit_and bits (mask 128 prefix)); prefix = prefix }

-- `if addr.is_ipv4() { 32 } else { 128 }`.
abbrev pub max_prefix : IpAddr → ℕ
max_prefix (v4 _) = 32
max_prefix (v6 _) = 128

-- With `parse_ip` for the standard library's `str::parse::<IpAddr>`.
unfoldable pub parse_subnet : (Text → Option IpAddr) → Text → Result EcsSubnet
parse_subnet parse_ip s = elim (split_once b'/' s) [
  | none ↦ err (str "invalid subnet")
  | some (addr_text, prefix_text) ↦ elim (parse_ip addr_text) [
    | none ↦ err (str "invalid subnet addr")
    | some addr ↦ elim (parse_uint 256 prefix_text) [
      | none ↦ err (str "invalid prefix")
      | some prefix ↦
          if ltb (max_prefix addr) prefix
          then err (str "prefix out of range")
          else ok (mask_ip addr prefix)
    ]
  ]
]

-- `EcsConfig` holds the text of `fixed_subnet`, if it is set.
unfoldable pub subnet_from_config : (Text → Option IpAddr) → Option Text → Option EcsSubnet
subnet_from_config parse_ip none = none
subnet_from_config parse_ip (some s) = elim (parse_subnet parse_ip s) [
  | ok sub ↦ some sub
  | err _ ↦ none
]

unfoldable pub edns_or_new : Hickory → Option Edns → Edns
edns_or_new h (some e) = e
edns_or_new h none = h.new_edns

unfoldable pub inject : Hickory → Message → EcsSubnet → Message
inject h query s =
    let edns = edns_or_new h query.edns in
    record query {
      edns = some (h.insert_option (subnet s.addr s.prefix 0) (h.set_max_payload 1232 edns));
    }
