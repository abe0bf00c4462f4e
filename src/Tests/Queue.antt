-- ===== src/Tests/Queue.antt =====
-- my_pxmsg_mmp: a queue of two messages of up to 16 bytes.
use interprocess_comm.Prelude.{
  ℕ, ◌≤◌, ◌≡◌, ◌≢◌, refl, ap, true, false, Option, none, some, List, [], ◌∷◌, arith, length,
  if◌then◌else◌, ◌==◌, weigh,
}
use interprocess_comm.Posix.{value, sigqueue, cond_signal, returns, out_of_fuel}
use interprocess_comm.Mqueue.{
  MqAttr, MsgHdr, sigev_signal, SigEvent, MqHdr, MqInfo, mqi_magic_open, Sizes, round_msgsize,
  update,
}
use interprocess_comm.Mqueue.Attr.{mq_getattr, mq_setattr}
use interprocess_comm.Mqueue.Handle.{notify-send, setattr-getattr}
use interprocess_comm.Mqueue.Inv.{Holds}
use interprocess_comm.Mqueue.Notify.{mq_notify}
use interprocess_comm.Mqueue.Open.{init_header, init_free}
use interprocess_comm.Mqueue.Open.Free.{Laid, init_header-Holds}
use interprocess_comm.Mqueue.Receive.{mq_receive, receive_resume}
use interprocess_comm.Mqueue.Receive.Dequeue.{Delivered}
use interprocess_comm.Mqueue.Receive.Refine.{mq_receive-Meets, receive_resume-Resumed}
use interprocess_comm.Mqueue.Send.{
  mq_send, send_resume, send_locked, send_enqueue, notify_arrival, link, insert_loop, fill,
}
use interprocess_comm.Mqueue.Send.Enqueue.{sent}
use interprocess_comm.Mqueue.Send.Refine.{Accepted, mq_send-Meets, send_resume-Meets}
use interprocess_comm.Mqueue.System.{outside, sending, System, Enters, send, Reach, start, later}
use interprocess_comm.Mqueue.System.Safety.{IsSound, Reach-IsSound, Reach-ends}

abbrev sizes : Sizes
sizes = record { sizeof_long = 8; sizeof_mq_hdr = 216; sizeof_msg_hdr = 24 }

abbrev event : SigEvent
event = record { sigev_notify = sigev_signal; sigev_signo = 10; sigev_value = 7 }

abbrev blank : ℕ → MsgHdr
blank a = record { msg_next = 0; msg_len = 0; msg_prio = 0; body = [] }

abbrev fresh : MqHdr
fresh = init_header sizes 2 16 blank event

abbrev info : MqInfo
info = record { mqi_magic = mqi_magic_open; mqi_flags = false }

abbrev no_kill : ℕ → Option ℕ
no_kill pid = none

abbrev text : List ℕ
text = 72 ∷ 105 ∷ []

init_header-Holds_example : (s : Holds fresh []) × (s.used ≡ []) × Laid sizes fresh s.frees
init_header-Holds_example =
    init_header-Holds sizes 2 16 blank event (omega arith) (omega arith) (omega arith) (omega arith)

abbrev fresh-Holds : Holds fresh []
fresh-Holds =
    (init_header-Holds sizes 2 16 blank event (omega arith) (omega arith) (omega arith)
      (omega arith)).0

mq_send-Meets_example :
    Accepted (sent text 2 5) fresh [] (cond_signal ∷ []) 0 (mq_send 0 info text 2 5 fresh)
unfolding init_header
mq_send-Meets_example = mq_send-Meets info text 2 5 fresh [] refl fresh-Holds (omega arith)

send_resume-Meets_example :
    Accepted (sent text 2 5) fresh [] (cond_signal ∷ []) 0 (send_resume text 2 5 fresh)
unfolding init_header
send_resume-Meets_example =
    send_resume-Meets text 2 5 fresh [] fresh-Holds (omega arith) (omega arith)

-- The queue with one message.
abbrev loaded : MqHdr
loaded = record {
  mqh_attr = record { mq_flags = false; mq_maxmsg = 2; mq_msgsize = 16; mq_curmsgs = 1 };
  mqh_head = 216;
  mqh_free = 256;
  mqh_nwait = 0;
  mqh_pid = 0;
  mqh_event = event;
  mqh_lock = false;
  msgs = λ a.
      if a == 216 then record { msg_next = 0; msg_len = 2; msg_prio = 5; body = text } else blank a;
}

abbrev written : ℕ → MsgHdr
unfolding init_header init_free
written =
    update (update fresh.msgs 216 (fill text 2 5 (fresh.msgs 216))) 216
      (record { msg_next = 0; msg_len = 2; msg_prio = 5; body = text })

written-loaded : (a : ℕ) → written a ≡ loaded.msgs a
unfolding init_header init_free round_msgsize
written-loaded a = ground arith

send-run : mq_send 0 info text 2 5 fresh ≡ returns (value 0) loaded (cond_signal ∷ [])
unfolding mq_send send_locked send_enqueue notify_arrival link insert_loop init_header init_free
    round_msgsize
send-run =
    ap (λ m. returns (value 0) (record loaded { msgs = m }) (cond_signal ∷ []))
      (λ i a. written-loaded a i)

loaded-Holds : Holds loaded (sent text 2 5 ∷ [])
loaded-Holds = record {
  used = 216 ∷ [];
  frees = 256 ∷ [];
  valid = record {
    used_chain = (refl, omega arith, refl);
    free_chain = (refl, omega arith, refl);
    used_distinct = (refl, tt);
    free_distinct = (refl, tt);
    apart = λ a h. ground arith;
    counted = refl;
    total = refl;
    positive = omega arith;
    sorted = ground arith;
    sizes = ((omega arith, refl), tt);
  };
  seen = refl;
  free_lock = refl;
}

mq_receive-Meets_example :
    Delivered true loaded (sent text 2 5) [] 0 (mq_receive 0 info 16 true loaded)
mq_receive-Meets_example =
    mq_receive-Meets info 16 true loaded refl (sent text 2 5 ∷ []) loaded-Holds

receive_resume-Resumed_example :
    Delivered false loaded (sent text 2 5) [] 0 (receive_resume false loaded)
receive_resume-Resumed_example =
    receive_resume-Resumed false loaded (sent text 2 5 ∷ []) loaded-Holds

notify-send_example :
    (h' : MqHdr) × (mq_notify 0 no_kill 42 info (some event) fresh ≡ returns (value 0) h' [])
    × Accepted
        (sent text 2 5)
        h'
        []
        (sigqueue 42 10 7 ∷ cond_signal ∷ [])
        0
        (mq_send 0 info text 2 5 h')
unfolding init_header
notify-send_example =
    notify-send no_kill info refl 42 event fresh text 2 5 fresh-Holds refl refl (omega arith) refl
      (omega arith) (omega arith)

setattr-getattr_example :
    (mqinfo' : MqInfo) × (old : Option MqAttr) × (mq_setattr 0 true true info loaded
      ≡ returns (value old) (mqinfo', loaded) [])
    × (mq_getattr 0 mqinfo' loaded
        ≡ returns (value (record (loaded.mqh_attr) { mq_flags = true })) loaded [])
    × (old ≡ some (record (loaded.mqh_attr) { mq_flags = false }))
setattr-getattr_example = setattr-getattr true true info loaded refl refl

-- One thread, which sends.
abbrev before : System
before = record { hdr = fresh; threads = λ i. outside }

abbrev between : System
between = record { hdr = loaded; threads = λ i. outside }

before-IsSound : IsSound 1 16 before
unfolding init_header weigh
before-IsSound = record {
  order = record { queue = []; holds = fresh-Holds; nwait = refl; size = refl };
  fits = λ i. tt;
}

sent-Reach : Reach 1 before between
unfolding init_header
sent-Reach = later start (
    send 0 0 2 5 text info (record { present = omega arith; state = refl; unheld = refl })
      (omega arith) send-run)

Reach-IsSound_example : IsSound 1 16 between
Reach-IsSound_example = Reach-IsSound before-IsSound sent-Reach

Reach-ends_example :
    ((j len prio : ℕ) (ptr : List ℕ) (info : MqInfo)
      → len ≤ length ptr
      → mq_send j info ptr len prio loaded ≢ out_of_fuel)
    × ((i len prio : ℕ) (ptr : List ℕ)
        → Enters 1 between i (sending ptr len prio)
        → send_resume ptr len prio loaded ≢ out_of_fuel)
Reach-ends_example = Reach-ends before-IsSound sent-Reach
