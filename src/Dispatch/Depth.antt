-- ===== src/Dispatch/Depth.antt =====
-- `Depth` of api/queue.go over the SCANs of the redis backend.
use adele_queue.Base.{
  ℕ, zero, suc, ◌+◌, ◌≤◌, ◌≡◌, ap, ◌∙◌, arith, true, List, [], ◌∷◌, ◌++◌, some, length,
  length-append,
}
use adele_queue.Base.Int.{pos, wrap64}
use adele_queue.Base.Text.{Text}
use adele_queue.Redis.{RedisApi, scan_page, pending_of}
use adele_queue.Memory.{Mem}
use adele_queue.Dispatch.{found, counted, scan_channel, scan_channels, depth}

-- The pages that a server gives from a cursor on, up to the one whose next cursor is 0: their
-- number and their keys.
pub data Pages {S : Type 0} (api : RedisApi S) (s : S) (channel : Text)
    : ℕ → ℕ → List Text → Type 0 where
  last :
      (cursor : ℕ) (keys : List Text)
      → api.scan (pending_of channel) cursor s ≡ scan_page (some zero) keys
      → Pages api s channel cursor 1 keys
  more :
      (cursor next n : ℕ) (keys rest : List Text)
      → api.scan (pending_of channel) cursor s ≡ scan_page (some (suc next)) keys
      → Pages api s channel (suc next) n rest
      → Pages api s channel cursor (suc n) (keys ++ rest)

-- The pages of every channel, none of more than `fuel` pages, and the number of all keys.
pub data AllPages {S : Type 0} (api : RedisApi S) (s : S) (fuel : ℕ) : List Text → ℕ → Type 0 where
  no_channel : AllPages api s fuel [] 0
  channel_pages :
      (channel : Text) (channels : List Text) (n total : ℕ) (keys : List Text)
      → Pages api s channel 0 n keys
      → n ≤ fuel
      → AllPages api s fuel channels total
      → AllPages api s fuel (channel ∷ channels) (length keys + total)

module _ {S : Type 0} (api : RedisApi S) (s : S) where
  scan_channel-Pages :
      (channel : Text) (fuel total : ℕ) {cursor n : ℕ} {keys : List Text}
      → Pages api s channel cursor n keys
      → n ≤ fuel
      → scan_channel api s fuel channel cursor total ≡ found (total + length keys)
  unfolding scan_channel
  scan_channel-Pages channel zero total (last cursor keys e) h = absurd (omega arith)
  scan_channel-Pages channel zero total (more cursor next n keys rest e p) h = absurd (omega arith)
  scan_channel-Pages channel (suc fuel) total (last cursor keys e) h = rw (e, scan_channel)
  scan_channel-Pages channel (suc fuel) total (more cursor next n keys rest e p) h =
      rw (e, scan_channel)
        (scan_channel-Pages channel fuel (total + length keys) p (omega arith)
          ∙ ap found (omega (arith, length-append keys rest)))

  scan_channels-AllPages :
      (fuel total : ℕ) {channels : List Text} {sum : ℕ}
      → AllPages api s fuel channels sum
      → scan_channels api s fuel channels total ≡ counted (wrap64 (pos (total + sum)))
  unfolding scan_channels
  scan_channels-AllPages fuel total no_channel = ap (λ k. counted (wrap64 (pos k))) (omega arith)
  scan_channels-AllPages fuel total (channel_pages channel channels n rest keys p h ps) =
      rw (scan_channel-Pages channel fuel total p h, scan_channels)
        (scan_channels-AllPages fuel (total + length keys) ps
          ∙ ap (λ k. counted (wrap64 (pos k))) (omega arith))

-- On a redis queue that is connected, whose server ends the SCAN of every channel within `fuel`
-- pages, `Depth` ends without an error and returns the number of keys that the pages hold, all
-- channels together.
pub depth-AllPages :
    {S W D : Type 0} (api : RedisApi S) (s : S) (fuel : ℕ) (m : Mem W D) (sum : ℕ)
    → m.queue.backend ≡ "redis"
    → m.queue.redis.pool ≡ true
    → AllPages api s fuel m.queue.queue_channels sum
    → depth api s fuel true m ≡ counted (wrap64 (pos sum))
unfolding depth
depth-AllPages api s fuel m sum redis pool pages =
    rw (redis, pool)
      (scan_channels-AllPages api s fuel 0 pages ∙ ap (λ k. counted (wrap64 (pos k))) (omega arith))
