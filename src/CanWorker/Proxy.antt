-- ===== src/CanWorker/Proxy.antt =====
-- CanWorkerProxy of app/src/can_worker.cpp: the parent's side of the channel to the CAN worker.
use youyeetoo_rk3588_toolkit.Prelude.{
  ℤ, minus_one, is_nonneg, eq_ℤ, Bool, true, false, List, [], ◌∷◌, ◌++◌, Option, none, some,
  if◌then◌else◌, ◌==◌,
}
use youyeetoo_rk3588_toolkit.Prelude.Text.{Text, codes, split_at}
use youyeetoo_rk3588_toolkit.Supervisor.{Supervisor, get_parent_fd}

pub record CanWorkerProxy : Type 0 where
  pub worker_name : Text
  pub status_summary : Text
  pub channel_alive : Bool
  pub last_seen_fd : ℤ

abbrev pub new_proxy : Text → CanWorkerProxy
new_proxy worker_name = record {
  worker_name = worker_name;
  status_summary = codes "can=subprocess_starting";
  channel_alive = false;
  last_seen_fd = minus_one;
}

-- What poll and recv give on the channel, until nothing is left.
pub data ChannelEvent : Type 0 where
  message : Text → ChannelEvent
  hung_up : ChannelEvent
  would_block : ChannelEvent
  closed_or_failed : ChannelEvent

-- The text behind the first occurrence of a text.
abbrev pub after_prefix : Text → Text → Option Text
after_prefix [] s = some s
after_prefix (c ∷ t) [] = none
after_prefix (c ∷ t) (d ∷ s) = if c == d then after_prefix t s else none

unfoldable pub after : Text → Text → Option Text
after t [] = after_prefix t []
after t (d ∷ s) =
    let later = after t s in elim (after_prefix t (d ∷ s)) [ none ↦ later | some rest ↦ some rest ]

-- The summary of a message: what stands behind status= on its line.
unfoldable pub status_of : Text → Option Text
unfolding after split_at
status_of msg = elim (after (codes "status=") msg) [
  | none ↦ none
  | some rest ↦ elim (split_at 10 rest) [ none ↦ some rest | some (line, _) ↦ some line ]
]

unfoldable pub drain : List ChannelEvent → CanWorkerProxy → CanWorkerProxy
unfolding status_of
drain [] p = p
drain (message msg ∷ rest) p =
    drain rest
      (elim (status_of msg) [ none ↦ p | some summary ↦ record p { status_summary = summary } ])
drain (hung_up ∷ rest) p = record p { channel_alive = false }
drain (would_block ∷ rest) p = p
drain (closed_or_failed ∷ rest) p = record p { channel_alive = false }

-- Tick
unfoldable pub tick : Supervisor → List ChannelEvent → CanWorkerProxy → CanWorkerProxy
unfolding drain
tick supervisor events p =
    let fd = get_parent_fd p.worker_name supervisor in
    let fresh = record p {
      last_seen_fd = fd;
      channel_alive = true;
      status_summary = codes "can=subprocess_starting";
    } in
    if is_nonneg fd
    then drain events (if eq_ℤ fd p.last_seen_fd then p else fresh)
    else record p { channel_alive = false }

-- The message of SendFrame.
unfoldable pub tx_message : Text → Text → Text
tx_message can_id_hex data_hex =
    codes "type=can_tx"
    ++ (10 ∷ (codes "can_id=" ++ (can_id_hex ++ (10 ∷ (codes "data=" ++ (data_hex ++ 10 ∷ []))))))

-- SendFrame: the descriptor that the message is sent to, if the worker runs, and the message.
pub send_frame : Supervisor → Text → Text → CanWorkerProxy → Option (ℤ × Text)
unfolding tx_message
send_frame supervisor can_id_hex data_hex p =
    let fd = get_parent_fd p.worker_name supervisor in
    if is_nonneg fd then some (fd, tx_message can_id_hex data_hex) else none
