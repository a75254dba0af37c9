-- ===== src/ClientManager/Externals.antt =====
-- What adchpp/ClientManager.cpp calls and this library does not define: the Tiger hash, the C library's
-- character classes and wide strings, and the IP addresses of boost::asio.
use adchubd.Base.{ℕ, Bool, Option, List, Bytes}

-- `boost::asio::ip::address`, by the value of the address.
pub data Address : Type 0 where
  ipv4 : ℕ → Address
  ipv6 : ℕ → Address

-- `is_print` is `iswprint`; `wide` converts UTF-8 to wide characters; `address`, `address_v4` and
-- `address_v6` are the `from_string` of these classes, and `text_v4`, `text_v6` their `to_string`;
-- `to_v4` is that of an IPv6 address; `inet_addr` gives the address in the order of the host.
pub record Externals : Type 0 where
  pub tiger : Bytes → Bytes
  pub is_print : ℕ → Bool
  pub wide : Bytes → List ℕ
  pub address : Bytes → Option Address
  pub address_v4 : Bytes → Option ℕ
  pub address_v6 : Bytes → Option ℕ
  pub text_v4 : ℕ → Bytes
  pub text_v6 : ℕ → Bytes
  pub to_v4 : ℕ → ℕ
  pub inet_addr : Bytes → Option ℕ
