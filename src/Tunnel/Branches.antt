-- ===== src/Tunnel/Branches.antt =====
-- The branches of `run` in esp_cf_tunnel.c: what holds on each holds of the whole.
use esp_cf_tunnel.Prelude.{either_at, ◌≡◌, Bool, true, false, ◌&&◌, not, arith, if◌then◌else◌}
use esp_cf_tunnel.Tunnel.{Firmware}
use esp_cf_tunnel.Tunnel.Task.{Task, discover}
use esp_cf_tunnel.Tunnel.Exchange.{connect_tls, communicate}
use esp_cf_tunnel.Tunnel.Loop
use esp_cf_tunnel.Tunnel.Loop.{
  Round, Move, EspResult, success, invalid_state, no_memory, start, is_discovery, is_connecting,
  is_registered, reload, begin_stop, or_retry, work, is_over, finish, round, move, moves,
}

module _ {A : Type 0} (firmware : Firmware A) where
  -- The branch of `work` that the stage takes.
  pub work-cases :
      (P : Bool × Task A → Type 0) (r : Round) (k : Task A)
      → (is_discovery k.tunnel.life.phase ≡ true
          → P (true, or_retry firmware r (discover firmware r.now r.random r.discovery k)))
      → (is_discovery k.tunnel.life.phase ≡ false
          → is_connecting k.tunnel.life.phase ≡ true
          → P (true, or_retry firmware r (connect_tls firmware r.now r.handshake k)))
      → (k.has_h2 ≡ false → P (true, k))
      → (let s = communicate firmware r.now r.out r.exchange k in
          k.has_h2 ≡ true → not s.0 && s.1.tunnel.stopping ≡ true → P (false, s.1))
      → (let s = communicate firmware r.now r.out r.exchange k in
          k.has_h2 ≡ true
          → not s.0 && s.1.tunnel.stopping ≡ false
          → P (true, or_retry firmware r s))
      → P (work firmware r k)
  unfolding work
  work-cases P r k searches connects waits leaves serves =
      let s = communicate firmware r.now r.out r.exchange k in
      either_at P (is_discovery k.tunnel.life.phase) _ _ searches (λ d.
        either_at P (is_connecting k.tunnel.life.phase) _ _ (connects d) (λ c.
          either_at P (not k.has_h2) (true, k) _ (λ e. waits (ground (arith, e)))
            (λ e.
              either_at P (not s.0 && s.1.tunnel.stopping) (false, s.1)
                (true, or_retry firmware r s) (leaves (ground (arith, e)))
                (serves (ground (arith, e))))))

  -- The ways out of a round.
  pub round-cases :
      (P : Task A → Type 0) (r : Round) (k : Task A)
      → let s1 = Loop.requests firmware r k in
        let s2 = Loop.environment firmware r s1.1 in
        let s3 = work firmware r s2.1 in
        P (finish firmware r.open_streams s1.1)
        → (s1.0 ≡ true → P (finish firmware r.open_streams s2.1))
        → (s1.0 ≡ true → s2.0 ≡ true → P (finish firmware r.open_streams s3.1))
        → (s1.0 ≡ true → s2.0 ≡ true → s3.0 ≡ true → is_over firmware r s3.1 ≡ false → P s3.1)
        → P (round firmware r k)
  unfolding round
  round-cases P r k first second third last =
      let s1 = Loop.requests firmware r k in
      let s2 = Loop.environment firmware r s1.1 in
      let s3 = work firmware r s2.1 in
      let finished = finish firmware r.open_streams s3.1 in
      let over = if is_over firmware r s3.1 then finished else s3.1 in
      let worked = if not s3.0 then finished else over in
      let aired = if not s2.0 then finish firmware r.open_streams s2.1 else worked in
      either_at P (not s1.0) (finish firmware r.open_streams s1.1) aired (λ h. first)
        (λ h1.
          either_at P (not s2.0) (finish firmware r.open_streams s2.1) worked
            (λ h. second (so s1.0 h1))
            (λ h2.
              either_at P (not s3.0) finished over (λ h. third (so s1.0 h1) (so s2.0 h2))
                (λ h3.
                  either_at P (is_over firmware r s3.1) finished s3.1
                    (λ h. third (so s1.0 h1) (so s2.0 h2))
                    (last (so s1.0 h1) (so s2.0 h2) (so s3.0 h3)))))
    where
      so : (b : Bool) → not b ≡ false → b ≡ true
      so b h = ground (arith, h)
