-- ===== src/H2/Departures.antt =====
-- The data that leave cf_h2.c and the end of a stream keep the adapter valid.
use esp_cf_tunnel.Prelude.{
  ◌∷◌, ℕ, ◌+◌, ◌≡◌, ◌≢◌, refl, ◌∙◌, true, false, some, List, [], arith, Option-cases, inl, inr, min,
}
use esp_cf_tunnel.Core.{u32}
use esp_cf_tunnel.Headers.{Header}
use esp_cf_tunnel.H2.{
  Stream, Engine, Outside, Submission, responds, resumes, resets, reset, chunk, find_stream, update,
  empty_slot,
}
use esp_cf_tunnel.H2.Respond.{respond, resume, submit, submit_all}
use esp_cf_tunnel.H2.Frame.{is_served}
use esp_cf_tunnel.H2.Receive.{closed_stream, read_response}
use esp_cf_tunnel.H2.Table.{
  is_found, found-update, length-update, update-All, count-le, count-update, count-update-le,
  find_id,
}
use esp_cf_tunnel.H2.Invariant.{Fits, IsValid, SlotFits, is_used, has_id, update-Fits, kept-Marks}
use esp_cf_tunnel.H2.Arrivals.{submit_all-IsValid}

-- A slot that is in use becomes free.
freed-Fits :
    {apps used at active : ℕ} {streams : List Stream} {headers : List Header} (id : ℕ) (s : Stream)
    → Fits apps streams headers used at active
    → find_stream streams id ≡ some s
    → id ≢ 0
    → Fits apps (update streams id (λ t. empty_slot)) headers used at (u32 (active + 0xffff_ffff))
freed-Fits {at} {streams} id s v found id_used =
    let free = λ (t : Stream). empty_slot in
    record {
      size = length-update streams id free ∙ v.size;
      counted =
          let less = count-update is_used streams id free s found in
          let most = count-le is_used streams in
          let mine = find_id streams id s found in
          ground (arith, less, most, v.size, mine, v.counted, id_used);
      slots =
          update-All (SlotFits at) (SlotFits at) id free (λ t b. b)
            (λ t e b. (λ z. refl, λ z d. ground (arith, d))) streams v.slots;
      alone = λ i u.
          let less = count-update-le (has_id i) streams id free (λ t e. ground (arith, e, u)) in
          omega (arith, less, v.alone i u);
      admitted = λ k.
          let less = count-update-le (is_served k) streams id free (λ t e. ground (arith, e)) in
          omega (arith, less, v.admitted k);
      few = v.few;
      fits = v.fits;
      stored = v.stored;
    }

module _ {W : Type 0} (o : Outside W) where
  found-submit :
      (c : Submission) (h : Engine W) (id : ℕ)
      → is_found (find_stream (submit o c h).streams id) ≡ is_found (find_stream h.streams id)
  unfolding submit respond resume reset
  found-submit (responds at status headers origin) h id =
      let same = found-update h.streams id at (λ s. record s { response = true }) (λ s. refl) in
      ground (arith, same)
  found-submit (resumes at) h id =
      let same = found-update h.streams id at (λ s. record s { deferred = false }) (λ s. refl) in
      ground (arith, same)
  found-submit (resets at code) h id =
      let same = found-update h.streams id at (λ s. record s { is_reset = true }) (λ s. refl) in
      ground (arith, same)

  -- The calls of a callback move no stream.
  found-submit_all :
      (cs : List Submission) (h : Engine W) (id : ℕ)
      → is_found (find_stream (submit_all o cs h).streams id) ≡ is_found (find_stream h.streams id)
  unfolding submit_all
  found-submit_all [] h id = refl
  found-submit_all (c ∷ cs) h id = found-submit_all cs (submit o c h) id ∙ found-submit c h id

  -- The id 0 is no stream.
  pub closed_stream-IsValid :
      (h : Engine W) (id code : ℕ) → IsValid h → id ≢ 0 → IsValid (closed_stream o h id code)
  unfolding closed_stream
  closed_stream-IsValid h id code v used =
      let (calls, w) = o.on_closed h id code in
      let h' = submit_all o calls (record h { outside = w }) in
      let v' = submit_all-IsValid o calls (record h { outside = w }) v in
      let same = found-submit_all calls (record h { outside = w }) id in
      elim (Option-cases (find_stream h.streams id)) [
        | inl t ↦ rw (closed_stream, t) v
        | inr (s, t) ↦
            rw (closed_stream, t)
              (elim (Option-cases (find_stream h'.streams id)) [
                | inl t' ↦ absurd (ground (arith, rw (t, t') at same))
                | inr (s', t') ↦ freed-Fits id s' v' t' used
              ])
      ]

  -- The ways out of `read_response`.
  pub read_response-cases :
      (P : Engine W → Type 0) (h : Engine W) (id capacity : ℕ)
      → P h
      → (let h1 = record h { streams = update h.streams id (λ s. record s { deferred = false }) } in
          let (rc, n, eof, calls, w) = o.on_read h1 id (min capacity chunk) in
          let h2 = submit_all o calls (record h1 { outside = w }) in
          P h2
          × P (record h2 { streams = update h2.streams id (λ s. record s { deferred = true }) })
          × P (record h2 {
            streams = update h2.streams id (λ s. record s { progress_ms = h2.now_ms });
          }))
      → P (read_response o h id capacity).1
  unfolding read_response
  read_response-cases P h id capacity stays (asked, waits, moves) =
      ground (arith, stays, asked, waits, moves)

  pub read_response-IsValid :
      (h : Engine W) (id capacity : ℕ) → IsValid h → IsValid (read_response o h id capacity).1
  read_response-IsValid h id capacity v =
      let quick = λ (s : Stream). record s { deferred = false } in
      let waiting = λ (s : Stream). record s { deferred = true } in
      let v1 =
        update-Fits v id quick (kept-Marks quick (λ s. refl) (λ s. refl) (λ s. refl) (λ s. refl)) in
      let h1 = record h { streams = update h.streams id quick } in
      let (rc, n, eof, calls, w) = o.on_read h1 id (min capacity chunk) in
      let h2 = submit_all o calls (record h1 { outside = w }) in
      let v2 = submit_all-IsValid o calls (record h1 { outside = w }) v1 in
      let moving = λ (s : Stream). record s { progress_ms = h2.now_ms } in
      let v3 =
        update-Fits v2 id waiting
          (kept-Marks waiting (λ s. refl) (λ s. refl) (λ s. refl) (λ s. refl)) in
      let v4 =
        update-Fits v2 id moving
          (kept-Marks moving (λ s. refl) (λ s. refl) (λ s. refl) (λ s. refl)) in
      read_response-cases IsValid h id capacity v (v2, v3, v4)
