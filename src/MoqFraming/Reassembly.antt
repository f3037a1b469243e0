-- ===== src/MoqFraming/Reassembly.antt =====
-- models/MoqFraming.h: UdpObjectReassembler.
pub mod Arith
pub mod Invariant
pub mod Flags
pub mod Delivery
use moq_veins_simulation_the.Base.{
  ℕ, ◌+◌, ◌%◌, ◌^◌, List, [], ◌∷◌, length, replicate, get_elem?, set, copy_at, leb, ◌==◌,
  if◌then◌else◌, Bool, true, false, not, ◌&&◌, ℤ, pos, negsuc, ltb_ℤ, Option, none, some,
}
use moq_veins_simulation_the.Reader.{Bytes}
use moq_veins_simulation_the.MoqFraming.Fragment.{UdpFragment}

pub record Reassembler : Type 0 where
  pub frag_count : ℕ
  pub total_len : ℕ
  pub received_frags : ℕ
  pub content : Bytes
  pub have : List Bool
  pub first_byte_time : ℤ
  pub complete : Bool

-- As its declaration initialises it.
abbrev pub empty : Reassembler
empty = record {
  frag_count = 0;
  total_len = 0;
  received_frags = 0;
  content = [];
  have = [];
  first_byte_time = negsuc 0;
  complete = false;
}

-- `have[i]`, read at indices below `fragCount` only.
abbrev pub flag_at : List Bool → ℕ → Bool
flag_at have i = elim (get_elem? have i) [ none ↦ false | some b ↦ b ]

-- The first fragment sets the time, and the sizes unless they are known.
unfoldable pub begin : UdpFragment → ℤ → Reassembler → Reassembler
begin f now r =
    let timed = record r {
      first_byte_time = if ltb_ℤ r.first_byte_time (pos 0) then now else r.first_byte_time;
    } in
    if r.frag_count == 0
    then record timed {
      frag_count = f.frag_count;
      total_len = f.total_len;
      content = replicate f.total_len 0;
      have = replicate f.frag_count false;
    }
    else timed

-- The fragment is new: its bytes are copied if they fit, and the count goes up.
unfoldable pub store : UdpFragment → Reassembler → Reassembler
store f r = record r {
  have = set r.have f.frag_index true;
  received_frags = (r.received_frags + 1) % 2 ^ 32;
  content =
      if leb (f.frag_offset + length f.chunk) (length r.content)
      then copy_at f.frag_offset f.chunk r.content
      else r.content;
}

unfoldable pub finish : Reassembler → Reassembler × Bool
finish r =
    if r.received_frags == r.frag_count && not r.complete
    then (record r { complete = true }, true)
    else (r, false)

unfoldable pub place : UdpFragment → Reassembler → Reassembler × Bool
unfolding store finish
place f r =
    if leb r.frag_count f.frag_index
    then (r, false)
    else if flag_at r.have f.frag_index
    then (r, false)
    else finish (store f r)

-- UdpObjectReassembler::add, and whether it returned true.
unfoldable pub add : UdpFragment → ℤ → Reassembler → Reassembler × Bool
unfolding begin place
add f now r = place f (begin f now r)
