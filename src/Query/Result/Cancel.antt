-- ===== src/Query/Result/Cancel.antt =====
-- Responses of callback.h that wait while the sender resets a lifetime of lifetime.h.
use minicomps.Prelude.{ℕ, ◌<◌, ◌≡◌, some, ok, if◌then◌else◌, arith}
use minicomps.Callback.{ResponseData}
use minicomps.Lifetime
use minicomps.Lifetime.Expiry.{IsValid, owned_by_other, expired-reset}
use minicomps.World.{World, UserCode}
use minicomps.Query.Result.{run_callback, run_response}

abbrev pub with_reset : ℕ → World → World
with_reset i w = record w { lifetimes = Lifetime.reset i w.lifetimes }

-- A response waits when the lifetime object `i` is reset. If it is tied to a block that no other object
-- owns, it does nothing when it runs: its callback is never called. If another object owns the block,
-- its callback is called.
pub run_response-reset :
    (u : UserCode) (d : ResponseData) (i t : ℕ) (w : World)
    → IsValid w.lifetimes
    → t < w.lifetimes.next_token
    → d.lifetime ≡ some t
    → run_response u d (with_reset i w) ≡ (
        if owned_by_other i t w.lifetimes.objects
        then run_callback u d.callback d.result (with_reset i w)
        else ok tt (with_reset i w))
unfolding run_response
run_response-reset u d i t w v h e =
    rw (run_response, e, (expired-reset i t w.lifetimes v h).0) (ground arith)
