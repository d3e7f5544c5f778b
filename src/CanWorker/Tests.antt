-- ===== src/CanWorker/Tests.antt =====
-- The CAN worker of app/src/can_worker.cpp at concrete inputs.
use youyeetoo_rk3588_toolkit.Prelude.{
  ℕ, ◌≡◌, refl, pos, true, false, List, [], ◌∷◌, ◌++◌, some, arith, All, inl, inr,
}
use youyeetoo_rk3588_toolkit.Prelude.Text.{Text, codes, text_eq}
use youyeetoo_rk3588_toolkit.Prelude.Dict.{lookup}
use youyeetoo_rk3588_toolkit.FileSystem.{FileSystem, unlines}
use youyeetoo_rk3588_toolkit.Can.{
  default_can_config, CanConfig, CommandMap, parse_rx_frame, find_command, ascii_suffix, add_suffix,
}
use youyeetoo_rk3588_toolkit.Can.Maps.{IsEntry}
use youyeetoo_rk3588_toolkit.Supervisor.{Supervisor, get_parent_fd}
use youyeetoo_rk3588_toolkit.CanWorker.{
  CanWorker, start_worker, received, read_error, inbox_line, to_frame,
}
use youyeetoo_rk3588_toolkit.CanWorker.Loop.{Round, ready, receive_all, rounds}
use youyeetoo_rk3588_toolkit.CanWorker.Proxy.{CanWorkerProxy, ChannelEvent, new_proxy, message}
use youyeetoo_rk3588_toolkit.CanWorker.Inbox.{received_twice}
use youyeetoo_rk3588_toolkit.CanWorker.Failover.{IsRouted, IsFailing}
use youyeetoo_rk3588_toolkit.CanWorker.Sends.{To, Sends}
use youyeetoo_rk3588_toolkit.CanWorker.Routes.{failover_sends}
use youyeetoo_rk3588_toolkit.CanWorker.Channel.{same_descriptor_stays_dead, proxy_ticks}

abbrev pub commands : CommandMap
commands = (1, (codes "PING", [])) ∷ []

abbrev inbox : Text
inbox = codes "/inbox"

abbrev pub small_config : CanConfig
small_config = record default_can_config { rx_error_threshold = pos 2 }

abbrev worker : CanWorker
worker = start_worker small_config commands inbox (pos 4) (pos 5) 0

abbrev files : FileSystem
files = record { contents = λ p. some (codes "LOG" ++ 10 ∷ []); writable = λ p. true }

abbrev ping : List ℕ
ping = 1 ∷ 0 ∷ 0 ∷ 0 ∷ 0 ∷ 0 ∷ 0 ∷ 0 ∷ []

pub commands-IsEntry : All IsEntry commands
unfolding codes
commands-IsEntry = ((omega arith, refl, (refl, (refl, (refl, (refl, tt)))), tt), tt)

received_twice_example :
    (receive_all
        ((pos 4, received 257 1 ping) ∷ (pos 5, received 257 1 ping) ∷ [])
        (worker, files)).1.contents
      inbox
    ≡ some (unlines (codes "LOG" ∷ codes "PING" ∷ codes "PING" ∷ []))
unfolding start_worker to_frame parse_rx_frame find_command codes inbox_line unlines ascii_suffix
    add_suffix
received_twice_example =
    received_twice (pos 4) (pos 5) 257 1 ping worker files (codes "LOG" ∷ []) refl refl refl refl

abbrev bad_read : ℕ → Round
bad_read now = record {
  poll = ready;
  hangup = false;
  messages = [];
  channel_error = false;
  reads = (pos 4, read_error) ∷ [];
  now = now;
  telemetry_write_ok = true;
  status_send_ok = true;
}

bad_read-IsFailing : (now : ℕ) → IsFailing (pos 4) (bad_read now)
bad_read-IsFailing now = record {
  polled = refl;
  there = refl;
  quiet = refl;
  fine = refl;
  reads = refl;
  reported = refl;
}

worker-IsRouted : IsRouted worker
unfolding start_worker
worker-IsRouted = record { target = refl; open_backup = refl }

-- A round in which the parent has a frame to send.
abbrev sending_round : Round
sending_round = record (bad_read 9000) {
  messages = (codes "type=can_tx\ncan_id=12\ndata=0102\n", true) ∷ [];
  reads = [];
}

failover_sends_example :
    let (w', fs', sent) = rounds (bad_read 10 ∷ bad_read 20 ∷ []) worker files in
    (w'.using_backup ≡ true) × To (pos 5) (rounds (sending_round ∷ []) w' fs').2
unfolding start_worker
failover_sends_example =
    failover_sends (bad_read 10 ∷ bad_read 20 ∷ []) (sending_round ∷ []) worker files 2
      worker-IsRouted refl refl (bad_read-IsFailing 10, (bad_read-IsFailing 20, tt)) refl
      (omega arith)

abbrev can : Text
can = codes "can"

abbrev running : Supervisor
running = record {
  workers =
      (
        can,
        record {
          name = can;
          pid = pos 100;
          parent_fd = pos 5;
          restart_count = 1;
          pending_restart = false;
          next_restart_at = 0;
        },
      )
      ∷ [];
  order = can ∷ [];
  fds = 1;
}

-- The worker while its fork fails.
abbrev absent : Supervisor
absent = record { workers = []; order = can ∷ []; fds = 0 }

-- The proxy when the worker's channel has gone, and what the ticks then meet: the worker is lost, and
-- is started again on the same descriptor.
abbrev lost : CanWorkerProxy
lost = record (new_proxy can) { last_seen_fd = pos 5 }

abbrev lost_and_back : List (Supervisor × List ChannelEvent)
lost_and_back = (absent, []) ∷ (running, message (codes "status=can=ok") ∷ []) ∷ (running, []) ∷ []

same_descriptor_stays_dead_example : (proxy_ticks lost_and_back lost).channel_alive ≡ false
unfolding lookup codes text_eq get_parent_fd
same_descriptor_stays_dead_example =
    same_descriptor_stays_dead lost_and_back (pos 5) lost refl refl refl
      (inr refl, (inl refl, (inl refl, tt)))
