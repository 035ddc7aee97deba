-- ===== src/Login/Ban.antt =====
-- Ban of src/ban.h and src/ban.cpp: how often one address may connect. Times are milliseconds in
-- uint64_t; the lock is held for the whole of a call, so calls come one after the other.
pub mod Flood
use rubyserver.Base.{
  ℕ, ◌+◌, ◌-◌, ◌%◌, ◌^◌, Bool, true, false, ◌||◌, List, [], ◌∷◌, Option, none, some, ltb, leb, ◌==◌,
  if◌then◌else◌,
}

pub record ConnectBlock : Type 0 where
  pub last_attempt : ℕ
  pub block_time : ℕ
  pub count : ℕ

-- std::map<uint32_t, ConnectBlock>, looked up by `find`
abbrev pub IpConnectMap : Type 0
IpConnectMap = ℕ → Option ConnectBlock

abbrev pub insert : ℕ → ConnectBlock → IpConnectMap → IpConnectMap
insert ip block map other = if other == ip then some block else map other

-- A difference of uint64_t in an int64_t is at most a small bound when its top bit is set, or when it
-- is at most the bound.
abbrev pub is_within : ℕ → ℕ → Bool
is_within bound difference = leb difference bound || leb (2 ^ 63) difference

abbrev pub time_diff : ℕ → ℕ → ℕ
time_diff now last = (now + 2 ^ 64 - last) % 2 ^ 64

-- The branches of an attempt by an address that is known, and not blocked.
unfoldable pub count_attempt : ℕ → ConnectBlock → Bool × ConnectBlock
count_attempt now block =
    let diff = time_diff now block.last_attempt in
    let tried = record block { last_attempt = now } in
    let counted = (block.count + 1) % 2 ^ 32 in
    if is_within 5000 diff
    then (if ltb 5 counted
        then (if is_within 500 diff
            then (false, record tried { count = 0; block_time = (now + 3000) % 2 ^ 64 })
            else (true, record tried { count = 0 }))
        else (true, record tried { count = counted }))
    else (true, record tried { count = 1 })

unfoldable pub attempt : ℕ → ConnectBlock → Bool × ConnectBlock
attempt now block =
    if ltb now block.block_time
    then (false, record block { block_time = (block.block_time + 250) % 2 ^ 64 })
    else count_attempt now block

-- acceptConnection at the time `now`
unfoldable pub accept_connection : ℕ → ℕ → IpConnectMap → Bool × IpConnectMap
accept_connection now ip map = elim (map ip) [
  | none ↦ (true, insert ip (record { last_attempt = now; block_time = 0; count = 1 }) map)
  | some block ↦ let (answer, after) = attempt now block in (answer, insert ip after map)
]
