-- ===== src/Tests/Blooms.antt =====
-- adchpp/HashBloom.cpp and adchpp/BloomManager.cpp at concrete inputs.
use adchubd.Base.{
  ℕ, zero, suc, ◌*◌, ◌/◌, ◌%◌, ◌<◌, ◌++◌, ◌≡◌, refl, Bool, true, false, List, [], ◌∷◌, none, some,
  Bytes, codes, is_empty, arith,
}
use adchubd.Base32.{from_base32, decode_loop, base32_value, zeros}
use adchubd.HashBloom.{
  HashBloom, add, add_loop, set_bit, pos, key_bits, matches, match_loop, bits_of, byte_bits, get_k,
  get_k_loop, get_m, reset,
}
use adchubd.HashBloom.Added.{add_all}
use adchubd.HashBloom.Sizes.{Greatest, get_k_bounds}
use adchubd.AdcCommand.{AdcCommand, new_command, to_field}
use adchubd.AdcCommand.Codes.{cmd_sch}
use adchubd.AdcCommand.Params.{get_param, find_param}
use adchubd.Base.Dict.{find, insert, erase}
use adchubd.Entity.{Entity, Kind, State}
use adchubd.Entity.Fields.{get_field, lookup}
use adchubd.Entity.Plugins.{get_plugin_data, set_plugin_data, clear_plugin_data}
use adchubd.StrUtil.{string_to_int, skip_spaces, is_white_space, read_digits}
use adchubd.ManagedSocket.Stream.{joined}
use adchubd.BloomManager.{
  tth_value, BloomManager, PendingItem, h, new_bloom_manager, feature, on_send, on_search, has_tth,
  on_data, on_pending,
}
use adchubd.BloomManager.Received.{on_blocks, received-found}

abbrev tr : Bytes
tr = codes "LWPNACQDBZRYXW3VHJVCJ64QBZNGHOHHHZWCLNQ"

abbrev none_set : ℕ → List Bool
none_set zero = []
none_set (suc n) = false ∷ none_set n

abbrev own : HashBloom
own = record { bloom = none_set 64; k = 2; h = h }

abbrev filter : HashBloom
filter = record own { bloom = bits_of (0 ∷ 4 ∷ 0 ∷ 32 ∷ 0 ∷ 0 ∷ 0 ∷ 0 ∷ []) }

-- A hash sets a bit for each of its first two keys.
add_all_run : add_all (tth_value tr ∷ []) own ≡ some filter
unfolding add_all add add_loop set_bit pos key_bits is_empty from_base32 decode_loop base32_value
    zeros bits_of byte_bits
add_all_run = refl

abbrev pending : PendingItem
pending = record { buffer = []; m = 64; k = 2 }

abbrev manager : BloomManager
manager = record new_bloom_manager { pending = (7, pending) ∷ [] }

-- The filter arrives in two blocks.
abbrev blocks : List Bytes
blocks = (0 ∷ 4 ∷ 0 ∷ []) ∷ (32 ∷ 0 ∷ 0 ∷ 0 ∷ 0 ∷ []) ∷ []

abbrev user : Entity
user = record {
  kind = Kind.client;
  cid = [];
  sid = 5;
  flags = 0;
  state = State.normal;
  supports = feature ∷ [];
  filters = [];
  fields = (to_field (codes "SF"), codes "1") ∷ [];
  inf = none;
  sup = none;
}

abbrev search_for : Bytes → AdcCommand
search_for s = record (new_command cmd_sch b'B' 9) { parameters = (codes "TR" ++ s) ∷ [] }

received-found_example :
    ((on_send user 7 (search_for tr) true (on_blocks 7 blocks manager)).1 ≡ true)
    × ((on_send user 7 (search_for tr) true (on_blocks 7 blocks manager)).0.stopped ≡ 0)
unfolding add_all add add_loop set_bit pos key_bits is_empty from_base32 decode_loop base32_value
    zeros bits_of byte_bits get_plugin_data find joined get_param find_param get_field lookup
    string_to_int skip_spaces is_white_space read_digits
received-found_example =
    received-found 7 pending manager (tth_value tr ∷ []) own filter blocks user (search_for tr) tr 0
      refl refl (omega arith) (refl, refl, refl) refl refl refl refl refl refl

-- A search for another hash is stopped.
stopped_run :
    (on_send user 7 (search_for (codes "AAAA")) true (on_blocks 7 blocks manager)).1 ≡ false
unfolding on_send on_search has_tth matches match_loop pos key_bits is_empty from_base32 decode_loop
    base32_value zeros bits_of byte_bits get_plugin_data set_plugin_data clear_plugin_data insert
    erase find joined get_param find_param on_blocks on_data on_pending reset
stopped_run = refl

-- An estimate of n * k / ln 2.
abbrev estimate : ℕ → ℕ → ℕ
estimate n k = n * k * 1443 / 1000

-- A share of a thousand files takes a filter of 11584 bits with eight hashes.
get_m_run : get_m estimate 1000 (get_k estimate 1000 24) ≡ 11584
unfolding get_m get_k get_k_loop
get_m_run = refl

get_k_bounds_example :
    Greatest estimate 1000 8 (get_k estimate 1000 24)
    × (get_m estimate 1000 (get_k estimate 1000 24) % 64 ≡ 0)
    × ((tth : Bytes) (i : ℕ)
        → i < get_k estimate 1000 24
        → 0 < get_m estimate 1000 (get_k estimate 1000 24)
        → (pos (get_m estimate 1000 (get_k estimate 1000 24)) 24 tth i
            < get_m estimate 1000 (get_k estimate 1000 24))
          × (pos (get_m estimate 1000 (get_k estimate 1000 24)) 24 tth i
              ≡ key_bits tth (i * 24) 24 0 0 % get_m estimate 1000 (get_k estimate 1000 24)))
get_k_bounds_example = get_k_bounds estimate 1000
