-- ===== src/Protocol/Adsl/Addresses.antt =====
-- The address and its table share four bytes.
use skyblip.Base.{ℕ, ◌+◌, ◌*◌, ◌/◌, ◌%◌, ◌^◌, ◌<◌, ◌≡◌, arith, u8, u32, ◌>>>◌}
use skyblip.Util.LittleEndian.{put_uint32, get_uint32}
use skyblip.Protocol.Adsl.{
  AdslPacket, address, address_word, set_address, address_mapping_table, set_address_mapping_table,
}

address_word_split :
    (top low value table : ℕ)
    → value < 2 ^ 24
    → table < 2 ^ 6
    → low < 2 ^ 6
    → ((u8 (top * 2 ^ 30 + low + u32 (value * 2 ^ 6)) / 2 ^ 6 * 2 ^ 6
            + table
            + u8 ((top * 2 ^ 30 + low + u32 (value * 2 ^ 6)) >>> 8) * 2 ^ 8
            + u8 ((top * 2 ^ 30 + low + u32 (value * 2 ^ 6)) >>> 16) * 2 ^ 16
            + u8 ((top * 2 ^ 30 + low + u32 (value * 2 ^ 6)) >>> 24) * 2 ^ 24)
          / 2 ^ 6)
        % 2 ^ 24
      ≡ value
address_word_split top low value table hv ht hlow = omega arith

table_kept :
    (top low value table : ℕ)
    → table < 2 ^ 6
    → (u8 (top * 2 ^ 30 + low + u32 (value * 2 ^ 6)) / 2 ^ 6 * 2 ^ 6 + table) % 2 ^ 6 ≡ table
table_kept top low value table ht = omega arith

-- An address of 24 bits and a table of six, set one after the other, are both read back.
pub address-set_address :
    (value table : ℕ) (p : AdslPacket)
    → value < 2 ^ 24
    → table < 2 ^ 6
    → (address (set_address_mapping_table table (set_address value p)) ≡ value)
      × (address_mapping_table (set_address_mapping_table table (set_address value p)) ≡ table)
unfolding address set_address address_mapping_table set_address_mapping_table put_uint32 get_uint32
address-set_address value table p hv ht =
    let w = address_word p in
    (
      address_word_split (w / 2 ^ 30) (w % 2 ^ 6) value table hv ht (omega arith),
      table_kept (w / 2 ^ 30) (w % 2 ^ 6) value table ht,
    )
