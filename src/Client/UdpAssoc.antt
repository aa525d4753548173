-- ===== src/Client/UdpAssoc.antt =====
-- crates/mq-proxy/src/client/udp_assoc.rs: a UDP association, its source lock and its table of destinations.
-- Targets, addresses and IPs are types with an equality. The table is a list of entries; the theorems hold for
-- every order of it, as the order of a hash map is not fixed. Times are in microseconds.
pub mod Laws
use mqproxy.Prelude.{
  ℕ, ◌-◌, List, [], ◌∷◌, ◌++◌, Bool, true, false, Option, none, some, ltb, leb, ◌&&◌, if◌then◌else◌,
  length,
}
use mqproxy.Prelude.Maps.{Key, put, erase}

abbrev pub max_dst_per_assoc : ℕ
max_dst_per_assoc = 64

-- Two seconds.
abbrev pub neg_cache : ℕ
neg_cache = 2_000_000

pub record DstEntry : Type 0 where
  pub session : Option ℕ
  pub dst_bytes : List ℕ
  pub failed_at : Option ℕ

pub record Assoc (T A I : Type 0) : Type 0 where
  pub sock : Option ℕ
  pub open_op : Option ℕ
  pub peer_ip : I
  pub learned : Option A
  pub dsts : List (T × DstEntry)

-- No session, and no live mark of the negative cache.
abbrev pub is_lapsed : ℕ → Option ℕ → Bool
is_lapsed now none = true
is_lapsed now (some f) = leb neg_cache (now - f)

abbrev pub is_unused : Option ℕ → Bool
is_unused none = true
is_unused (some sid) = false

abbrev pub is_free : ℕ → DstEntry → Bool
is_free now e = is_unused e.session && is_lapsed now e.failed_at

-- The calls of `Cx` in `release`.
pub data Call : Type 0 where
  cancel_udp_socket : ℕ → Call
  close_udp_socket : ℕ → Call

abbrev pub calls : (ℕ → Call) → Option ℕ → List Call
calls f none = []
calls f (some x) = f x ∷ []

module _ {T A I : Type 0} ⦃addr_key : Key A⦄ ⦃ip_key : Key I⦄ (ip_of : A → I) where
  abbrev pub new : ℕ → I → Assoc T A I
  new open_op peer_ip = record {
    sock = none;
    open_op = some open_op;
    peer_ip = peer_ip;
    learned = none;
    dsts = [];
  }

  abbrev pub accept_from : Assoc T A I → Option A → A → Assoc T A I × Bool
  accept_from a (some l) from = (a, addr_key.same l from)
  accept_from a none from =
      if ip_key.same (ip_of from) a.peer_ip
      then (record a { learned = some from }, true)
      else (a, false)

  -- Whether the datagram's source is accepted.
  unfoldable pub accept_source : Assoc T A I → A → Assoc T A I × Bool
  accept_source a from = accept_from a a.learned from

-- The first entry that can be reclaimed.
unfoldable pub find_free : {T : Type 0} → ℕ → List (T × DstEntry) → Option T
find_free now [] = none
find_free now ((t, e) ∷ m) = let rest = find_free now m in if is_free now e then some t else rest

abbrev pub fresh : List ℕ → DstEntry
fresh bytes = record { session = none; dst_bytes = bytes; failed_at = none }

module _ {T A I : Type 0} ⦃target_key : Key T⦄ where
  abbrev pub insert_in : Assoc T A I → T → List ℕ → Assoc T A I
  insert_in a target bytes = record a { dsts = put target (fresh bytes) a.dsts }

  abbrev pub reclaim : Assoc T A I → T → List ℕ → Option T → Option (Assoc T A I)
  reclaim a target bytes none = none
  reclaim a target bytes (some key) =
      some (insert_in (record a { dsts = erase key a.dsts }) target bytes)

  -- `none` leaves the association as it is.
  unfoldable pub insert_dst : Assoc T A I → T → List ℕ → ℕ → Option (Assoc T A I)
  unfolding find_free put erase
  insert_dst a target bytes now =
      if leb max_dst_per_assoc (length a.dsts)
      then reclaim a target bytes (find_free now a.dsts)
      else some (insert_in a target bytes)

unfoldable pub release : {T A I : Type 0} → Assoc T A I → List Call
release a = calls cancel_udp_socket a.open_op ++ calls close_udp_socket a.sock
