-- ===== src/CanWorker/Channel.antt =====
-- The channel between the parent and the worker in app/src/can_worker.cpp: the requests to send a
-- frame, and what the proxy knows of the worker.
use youyeetoo_rk3588_toolkit.Prelude.{
  ℕ, ◌%◌, ◌^◌, ◌≡◌, refl, ap, sym, ◌∙◌, ℤ, true, false, List, [], ◌∷◌, ◌++◌, none, some, All,
  is_nonneg, Option-cases, eq_ℤ_iff, inl, inr, ◌⊎◌,
}
use youyeetoo_rk3588_toolkit.Prelude.Text.{Text, codes, text_eq, split_at, split}
use youyeetoo_rk3588_toolkit.Prelude.Splitting.{Lacks, split-append}
use youyeetoo_rk3588_toolkit.Number.{stoul0}
use youyeetoo_rk3588_toolkit.FileSystem.{lines}
use youyeetoo_rk3588_toolkit.Supervisor.{Supervisor, get_parent_fd}
use youyeetoo_rk3588_toolkit.CanWorker.{
  parse_tx_message, parse_tx_lines, parse_tx_line, parse_bytes,
}
use youyeetoo_rk3588_toolkit.CanWorker.Proxy.{
  CanWorkerProxy, ChannelEvent, message, hung_up, would_block, closed_or_failed, drain, tick,
  tx_message, status_of,
}

-- Ticks of the proxy in a row, each with the supervisor as it then is and what arrives.
unfoldable pub proxy_ticks : List (Supervisor × List ChannelEvent) → CanWorkerProxy → CanWorkerProxy
proxy_ticks [] p = p
proxy_ticks ((s, events) ∷ rest) p = proxy_ticks rest (tick s events p)

drain_dead :
    (events : List ChannelEvent) (p : CanWorkerProxy)
    → p.channel_alive ≡ false
    → ((drain events p).channel_alive ≡ false)
      × ((drain events p).last_seen_fd ≡ p.last_seen_fd)
      × ((drain events p).worker_name ≡ p.worker_name)
unfolding drain
drain_dead [] p h = (h, refl, refl)
drain_dead (message msg ∷ rest) p h = elim (Option-cases (status_of msg)) [
  | inl e ↦ rw (e, drain) (drain_dead rest p h)
  | inr (summary, e) ↦ rw (e, drain) (drain_dead rest (record p { status_summary = summary }) h)
]
drain_dead (hung_up ∷ rest) p h = (refl, refl, refl)
drain_dead (would_block ∷ rest) p h = (h, refl, refl)
drain_dead (closed_or_failed ∷ rest) p h = (refl, refl, refl)

tick_same :
    (s : Supervisor) (events : List ChannelEvent) (fd : ℤ) (p : CanWorkerProxy)
    → get_parent_fd p.worker_name s ≡ fd
    → is_nonneg fd ≡ true
    → p.last_seen_fd ≡ fd
    → tick s events p ≡ drain events p
unfolding tick
tick_same s events fd p h usable seen =
    let self = (eq_ℤ_iff fd p.last_seen_fd).1 (sym seen) in rw (h, usable, self) refl

-- At every tick the worker has no channel, or one with this descriptor.
abbrev pub AllAt : Text → ℤ → List (Supervisor × List ChannelEvent) → Type 0
AllAt name fd =
    All (λ t. (get_parent_fd name t.0 ≡ fd) ⊎ (is_nonneg (get_parent_fd name t.0) ≡ false))

tick_absent :
    (s : Supervisor) (events : List ChannelEvent) (p : CanWorkerProxy)
    → is_nonneg (get_parent_fd p.worker_name s) ≡ false
    → ((tick s events p).channel_alive ≡ false)
      × ((tick s events p).last_seen_fd ≡ p.last_seen_fd)
      × ((tick s events p).worker_name ≡ p.worker_name)
unfolding tick
tick_absent s events p h = rw h (refl, refl, refl)

-- Once its channel is not alive, the proxy reports it as dead after any ticks at each of which the
-- worker has no channel, or one with the descriptor that it last had, whatever messages of a running
-- worker arrive: a worker that is lost, and comes back with the same descriptor, stays dead.
pub same_descriptor_stays_dead :
    (ts : List (Supervisor × List ChannelEvent)) (fd : ℤ) (p : CanWorkerProxy)
    → is_nonneg fd ≡ true
    → p.last_seen_fd ≡ fd
    → p.channel_alive ≡ false
    → AllAt p.worker_name fd ts
    → (proxy_ticks ts p).channel_alive ≡ false
unfolding proxy_ticks
same_descriptor_stays_dead [] fd p usable seen dead h = dead
same_descriptor_stays_dead ((s, events) ∷ ts) fd p usable seen dead (inr absent, hs) =
    let (dead', seen', name) = tick_absent s events p absent in
    same_descriptor_stays_dead ts fd (tick s events p) usable (seen' ∙ seen) dead' (rw name hs)
same_descriptor_stays_dead ((s, events) ∷ ts) fd p usable seen dead (inl h, hs) =
    let (dead', seen', name) = drain_dead events p dead in
    rw (tick_same s events fd p h usable seen, proxy_ticks)
      (same_descriptor_stays_dead ts fd (drain events p) usable (seen' ∙ seen) dead' (rw name hs))

message_lines :
    (id payload : Text)
    → Lacks 10 id
    → Lacks 10 payload
    → lines (tx_message id payload)
      ≡ codes "type=can_tx" ∷ (codes "can_id=" ++ id) ∷ (codes "data=" ++ payload) ∷ []
unfolding tx_message lines codes split
message_lines id payload i d =
    let id_line : Lacks 10 (codes "can_id=" ++ id) =
      (refl, (refl, (refl, (refl, (refl, (refl, (refl, i))))))) in
    let data_line : Lacks 10 (codes "data=" ++ payload) =
      (refl, (refl, (refl, (refl, (refl, d))))) in
    let rest = codes "data=" ++ (payload ++ 10 ∷ []) in
    ap (λ ls. codes "type=can_tx" ∷ ls)
      (split-append 10 (codes "can_id=" ++ id) rest id_line
        ∙ ap (λ ls. (codes "can_id=" ++ id) ∷ ls)
            (split-append 10 (codes "data=" ++ payload) [] data_line))

parse_id_line :
    (id : Text) (v : ℕ)
    → stoul0 id ≡ some v
    → parse_tx_line (codes "can_id=" ++ id) (none, none) ≡ (some (v % 2 ^ 32), none)
unfolding parse_tx_line codes text_eq split_at
parse_id_line id v number = rw number refl

-- A message of SendFrame is read by the worker as the number and the bytes that its two texts
-- spell, if the identifier is a number and neither text has a newline.
pub parse_tx_message-tx_message :
    (id payload : Text) (v : ℕ)
    → stoul0 id ≡ some v
    → Lacks 10 id
    → Lacks 10 payload
    → parse_tx_message (tx_message id payload) ≡ some (v % 2 ^ 32, parse_bytes 8 payload)
unfolding parse_tx_message parse_tx_lines parse_tx_line codes split_at text_eq
parse_tx_message-tx_message id payload v number i d = rw (message_lines id payload i d, number) refl
