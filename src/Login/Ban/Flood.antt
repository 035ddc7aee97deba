-- ===== src/Login/Ban/Flood.antt =====
-- What an address that connects too often gets.
use rubyserver.Base.{
  ℕ, zero, suc, ◌+◌, ◌*◌, ◌%◌, ◌^◌, ◌≤◌, ◌<◌, ◌≡◌, refl, ap, ◌∙◌, Bool, true, false, List, [], ◌∷◌,
  none, some, arith, ltb, length, replicate,
}
use rubyserver.Login.Ban.{
  ConnectBlock, IpConnectMap, insert, is_within, time_diff, count_attempt, attempt,
  accept_connection,
}

-- The answers to an address that comes at `now` and then again after each of the gaps.
unfoldable pub connect : ℕ → List ℕ → ℕ → IpConnectMap → List Bool
connect now [] ip map = (accept_connection now ip map).0 ∷ []
connect now (gap ∷ gaps) ip map =
    let (answer, map') = accept_connection now ip map in answer ∷ connect (now + gap) gaps ip map'

-- The same for the block of an address that is known.
tries : ℕ → List ℕ → ConnectBlock → List Bool
tries now [] block = (attempt now block).0 ∷ []
tries now (gap ∷ gaps) block =
    let (answer, block') = attempt now block in answer ∷ tries (now + gap) gaps block'

abbrev pub AllAtMost : ℕ → List ℕ → Type 0
AllAtMost bound [] = Unit
AllAtMost bound (gap ∷ gaps) = (gap ≤ bound) × AllAtMost bound gaps

abbrev pub AllAbove : ℕ → List ℕ → Type 0
AllAbove bound [] = Unit
AllAbove bound (gap ∷ gaps) = (bound < gap) × AllAbove bound gaps

-- The time of the last attempt.
abbrev pub last_time : ℕ → List ℕ → ℕ
last_time now [] = now
last_time now (gap ∷ gaps) = last_time (now + gap) gaps

last_time_ge : (now : ℕ) (gaps : List ℕ) → now ≤ last_time now gaps
last_time_ge now [] = omega arith
last_time_ge now (gap ∷ gaps) = omega (arith, last_time_ge (now + gap) gaps)

accept_connection-known :
    (now ip : ℕ) (map : IpConnectMap) (block : ConnectBlock)
    → map ip ≡ some block
    → accept_connection now ip map ≡ ((attempt now block).0, insert ip (attempt now block).1 map)
unfolding accept_connection
accept_connection-known now ip map block e = rw (e, accept_connection)

new_block : ℕ → ConnectBlock
new_block now = record { last_attempt = now; block_time = 0; count = 1 }

accept_connection-new :
    (now ip : ℕ) (map : IpConnectMap)
    → map ip ≡ none
    → accept_connection now ip map ≡ (true, insert ip (new_block now) map)
unfolding accept_connection new_block
accept_connection-new now ip map e = rw (e, accept_connection)

insert_self :
    (ip : ℕ) (block : ConnectBlock) (map : IpConnectMap) → insert ip block map ip ≡ some block
insert_self ip block map = ground arith

connect-known :
    (now : ℕ) (gaps : List ℕ) (ip : ℕ) (map : IpConnectMap) (block : ConnectBlock)
    → map ip ≡ some block
    → connect now gaps ip map ≡ tries now gaps block
unfolding connect tries
connect-known now [] ip map block e = rw (accept_connection-known now ip map block e)
connect-known now (gap ∷ gaps) ip map block e = rw (accept_connection-known now ip map block e) (
    ap (λ l. (attempt now block).0 ∷ l)
      (connect-known (now + gap) gaps ip (insert ip (attempt now block).1 map) (attempt now block).1
        (insert_self ip (attempt now block).1 map)))

-- The first answers are yes, and all others no.
unfoldable pub answers : ℕ → ℕ → List Bool
answers allowed zero = []
answers zero (suc n) = false ∷ answers zero n
answers (suc allowed) (suc n) = true ∷ answers allowed n

attempt-blocked :
    (now : ℕ) (block : ConnectBlock)
    → now < block.block_time
    → block.block_time + 250 < 2 ^ 64
    → attempt now block ≡ (false, record block { block_time = block.block_time + 250 })
unfolding attempt
attempt-blocked now block h fits =
    let blocked : ltb now block.block_time ≡ true = ground (arith, h) in
    let same : (block.block_time + 250) % 2 ^ 64 ≡ block.block_time + 250 = omega (arith, fits) in
    rw (blocked, same)

-- While a block lasts, attempts at most 250 ms apart are refused and push its end away.
tries-blocked :
    (now : ℕ) (gaps : List ℕ) (block : ConnectBlock)
    → now < block.block_time
    → block.block_time + 250 * length gaps + 250 < 2 ^ 64
    → AllAtMost 250 gaps
    → tries now gaps block ≡ answers 0 (suc (length gaps))
unfolding tries answers
tries-blocked now [] block h fits near = rw (attempt-blocked now block h (omega (arith, fits)))
tries-blocked now (gap ∷ gaps) block h fits near =
    rw (attempt-blocked now block h (omega (arith, fits))) (
      ap (λ l. false ∷ l)
        (tries-blocked (now + gap) gaps (record block { block_time = block.block_time + 250 })
          (omega (arith, h, near.0)) (omega (arith, fits)) near.1))

-- An attempt that is no less than a gap after the last one, by an address that is not blocked.
time_diff-gap : (last gap : ℕ) → last + gap < 2 ^ 63 → time_diff (last + gap) last ≡ gap
time_diff-gap last gap h = omega (arith, h)

attempt-free :
    (now : ℕ) (block : ConnectBlock)
    → block.block_time ≤ now
    → attempt now block ≡ count_attempt now block
unfolding attempt
attempt-free now block h =
    let free : ltb now block.block_time ≡ false = ground (arith, h) in rw (free, attempt)

count_attempt-near :
    (now diff last c bt : ℕ)
    → diff ≤ 250
    → time_diff now last ≡ diff
    → c < 5
    → count_attempt now (record { last_attempt = last; block_time = bt; count = c })
      ≡ (true, record { last_attempt = now; block_time = bt; count = c + 1 })
unfolding count_attempt
count_attempt-near now diff last c bt h e k =
    let within : is_within 5000 diff ≡ true = ground (arith, h) in
    let same : (c + 1) % 2 ^ 32 ≡ c + 1 = omega (arith, k) in
    let few : ltb 5 (c + 1) ≡ false = ground (arith, k) in rw (e, within, same, few)

count_attempt-sixth :
    (now diff last bt : ℕ)
    → diff ≤ 250
    → time_diff now last ≡ diff
    → now + 3000 < 2 ^ 63
    → count_attempt now (record { last_attempt = last; block_time = bt; count = 5 })
      ≡ (false, record { last_attempt = now; block_time = now + 3000; count = 0 })
unfolding count_attempt
count_attempt-sixth now diff last bt h e fits =
    let within : is_within 5000 diff ≡ true = ground (arith, h) in
    let fast : is_within 500 diff ≡ true = ground (arith, h) in
    let same : (now + 3000) % 2 ^ 64 ≡ now + 3000 = omega (arith, fits) in
    rw (e, within, fast, same)

attempt-near :
    (last gap c bt : ℕ)
    → gap ≤ 250
    → bt ≤ last
    → last + gap < 2 ^ 63
    → c < 5
    → attempt (last + gap) (record { last_attempt = last; block_time = bt; count = c })
      ≡ (true, record { last_attempt = last + gap; block_time = bt; count = c + 1 })
attempt-near last gap c bt h free fits k =
    attempt-free (last + gap) (record { last_attempt = last; block_time = bt; count = c })
      (omega (arith, free))
    ∙ count_attempt-near (last + gap) gap last c bt h (time_diff-gap last gap fits) k

attempt-sixth :
    (last gap bt : ℕ)
    → gap ≤ 250
    → bt ≤ last
    → last + gap + 3000 < 2 ^ 63
    → attempt (last + gap) (record { last_attempt = last; block_time = bt; count = 5 })
      ≡ (false, record { last_attempt = last + gap; block_time = last + gap + 3000; count = 0 })
attempt-sixth last gap bt h free fits =
    attempt-free (last + gap) (record { last_attempt = last; block_time = bt; count = 5 })
      (omega (arith, free))
    ∙ count_attempt-sixth (last + gap) gap last bt h (time_diff-gap last gap (omega (arith, fits)))
        fits

-- An address with `allowed` attempts left, at its next one.
tries-near :
    (allowed c last gap bt : ℕ) (gaps : List ℕ)
    → allowed + c ≡ 5
    → bt ≤ last
    → AllAtMost 250 (gap ∷ gaps)
    → last + 250 * length (gap ∷ gaps) + 4000 < 2 ^ 63
    → tries (last + gap) gaps (record { last_attempt = last; block_time = bt; count = c })
      ≡ answers allowed (suc (length gaps))
unfolding tries answers
tries-near zero c last gap bt [] five free near fits =
    let full : c ≡ 5 = omega (arith, five) in
    rw (full, attempt-sixth last gap bt near.0 free (omega (arith, fits, near.0)))
tries-near zero c last gap bt (next ∷ gaps) five free near fits =
    let full : c ≡ 5 = omega (arith, five) in
    rw (full, attempt-sixth last gap bt near.0 free (omega (arith, fits, near.0)))
      (ap (λ l. false ∷ l)
        (tries-blocked (last + gap + next) gaps _ (omega (arith, near.1.0))
          (omega (arith, fits, near.0)) near.1.1))
tries-near (suc allowed) c last gap bt [] five free near fits =
    rw (attempt-near last gap c bt near.0 free (omega (arith, fits, near.0)) (omega (arith, five)))
tries-near (suc allowed) c last gap bt (next ∷ gaps) five free near fits =
    rw (attempt-near last gap c bt near.0 free (omega (arith, fits, near.0)) (omega (arith, five)))
      (ap (λ l. true ∷ l)
        (tries-near allowed (c + 1) (last + gap) next bt gaps (omega (arith, five))
          (omega (arith, free)) near.1 (omega (arith, fits, near.0))))

-- An address that was not seen before and that comes again after at most 250 ms each time, for as
-- long as it likes while the clock is below 2^63, is accepted the first five times and never again.
pub connect-flood :
    (now : ℕ) (gaps : List ℕ) (ip : ℕ) (map : IpConnectMap)
    → map ip ≡ none
    → AllAtMost 250 gaps
    → now + 250 * length gaps + 4000 < 2 ^ 63
    → connect now gaps ip map ≡ answers 5 (suc (length gaps))
unfolding connect answers new_block
connect-flood now [] ip map new near fits = rw (accept_connection-new now ip map new)
connect-flood now (gap ∷ gaps) ip map new near fits = rw (accept_connection-new now ip map new) (
    ap (λ l. true ∷ l)
      (connect-known (now + gap) gaps ip (insert ip (new_block now) map) (new_block now)
          (insert_self ip (new_block now) map)
        ∙ tries-near 4 1 now gap 0 gaps refl (omega arith) near fits))

count_attempt-far :
    (now diff last bt c : ℕ)
    → 5000 < diff
    → diff < 2 ^ 63
    → time_diff now last ≡ diff
    → count_attempt now (record { last_attempt = last; block_time = bt; count = c })
      ≡ (true, record { last_attempt = now; block_time = bt; count = 1 })
unfolding count_attempt
count_attempt-far now diff last bt c far small e =
    let outside : is_within 5000 diff ≡ false = ground (arith, far, small) in rw (e, outside)

attempt-far :
    (last gap c bt : ℕ)
    → 5000 < gap
    → bt ≤ last
    → last + gap < 2 ^ 63
    → attempt (last + gap) (record { last_attempt = last; block_time = bt; count = c })
      ≡ (true, record { last_attempt = last + gap; block_time = bt; count = 1 })
attempt-far last gap c bt far free fits =
    attempt-free (last + gap) (record { last_attempt = last; block_time = bt; count = c })
      (omega (arith, free))
    ∙ count_attempt-far (last + gap) gap last bt c far (omega (arith, fits))
        (time_diff-gap last gap fits)

tries-far :
    (last gap c bt : ℕ) (gaps : List ℕ)
    → bt ≤ last
    → AllAbove 5000 (gap ∷ gaps)
    → last_time (last + gap) gaps < 2 ^ 63
    → tries (last + gap) gaps (record { last_attempt = last; block_time = bt; count = c })
      ≡ replicate (suc (length gaps)) true
unfolding tries
tries-far last gap c bt [] free far fits = rw (attempt-far last gap c bt far.0 free fits)
tries-far last gap c bt (next ∷ gaps) free far fits =
    let now_fits : last + gap < 2 ^ 63 =
      omega (arith, fits, last_time_ge (last + gap + next) gaps) in
    rw (attempt-far last gap c bt far.0 free now_fits)
      (ap (λ l. true ∷ l) (tries-far (last + gap) next 1 bt gaps (omega (arith, free)) far.1 fits))

-- An address that was not seen before and that waits more than 5000 ms each time is always accepted,
-- while the clock is below 2^63.
pub connect-patient :
    (now : ℕ) (gaps : List ℕ) (ip : ℕ) (map : IpConnectMap)
    → map ip ≡ none
    → AllAbove 5000 gaps
    → last_time now gaps < 2 ^ 63
    → connect now gaps ip map ≡ replicate (suc (length gaps)) true
unfolding connect new_block
connect-patient now [] ip map new far fits = rw (accept_connection-new now ip map new)
connect-patient now (gap ∷ gaps) ip map new far fits = rw (accept_connection-new now ip map new) (
    ap (λ l. true ∷ l)
      (connect-known (now + gap) gaps ip (insert ip (new_block now) map) (new_block now)
          (insert_self ip (new_block now) map)
        ∙ tries-far now gap 1 0 gaps (omega arith) far fits))
