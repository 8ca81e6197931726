-- ===== src/Tasks/Result/Served.antt =====
-- What the server has answered to the requests of a read: the turns and messages of its thread pages,
-- and its receipts.
use mathlib.Core.List.{Memᴰ}
use deixic_python.Base.{
  String, ◌≡◌, refl, Bool-cases, inl, inr, Option, none, some, List, [], ◌∷◌, ◌++◌, All, text_eq,
  ok, arith,
}
use deixic_python.Tasks.Types.{TaskTurn, TaskMessage, Receipt, ThreadPage}
use deixic_python.Tasks.Platform.{Platform, ThreadRequest, ReceiptRequest}
use deixic_python.Tasks.Result.{find_turn, find_message, first_of, Scan, add_page}

module _ (P : Platform) (channel : String) where
  -- A page of the channel's thread, with which the server answered a request for this channel.
  abbrev pub IsServed : ThreadPage → Type 0
  IsServed page =
      (q : ThreadRequest) × (v : P.World) × (w : P.World) × (q.channel_id ≡ channel)
      × (P.get_thread q v ≡ (ok page, w))
      × (page.thread_id ≡ channel)

  abbrev pub HasTurn : TaskTurn → Type 0
  HasTurn t = (page : ThreadPage) × IsServed page × Memᴰ t page.turns

  abbrev pub HasMessage : TaskMessage → Type 0
  HasMessage m = (page : ThreadPage) × IsServed page × Memᴰ m page.messages

  -- A receipt with which the server answered a request for this channel and this receipt.
  abbrev pub HasReceipt : Receipt → Type 0
  HasReceipt r =
      (q : ReceiptRequest) × (v : P.World) × (w : P.World) × (q.channel_id ≡ channel)
      × (q.receipt_id ≡ r.id)
      × (P.get_receipt q v ≡ (ok r, w))

  abbrev pub ReadTurn : Option TaskTurn → Type 0
  ReadTurn none = Unit
  ReadTurn (some t) = HasTurn t

  -- What a scan knows was served.
  abbrev pub ReadScan : Scan → Type 0
  ReadScan scan = ReadTurn scan.turn × All HasMessage scan.messages

  abbrev pub ReadSome : Option Scan → Type 0
  ReadSome none = Unit
  ReadSome (some scan) = ReadScan scan

  find_turn-Memᴰ :
      (id : String) (ts : List TaskTurn) (t : TaskTurn) → find_turn id ts ≡ some t → Memᴰ t ts
  unfolding find_turn
  find_turn-Memᴰ id [] t h = cc
  find_turn-Memᴰ id (u ∷ ts) t h = elim (Bool-cases (text_eq u.turn_id id)) [
    | inl found ↦ Memᴰ.head (ground arith)
    | inr later ↦ Memᴰ.tail (find_turn-Memᴰ id ts t (ground arith))
  ]

  find_turn-ReadTurn :
      (id : String) (page : ThreadPage) (o : Option TaskTurn)
      → IsServed page
      → find_turn id page.turns ≡ o
      → ReadTurn o
  find_turn-ReadTurn id page none served h = tt
  find_turn-ReadTurn id page (some t) served h = (page, served, find_turn-Memᴰ id page.turns t h)

  first_of-ReadTurn : (a b : Option TaskTurn) → ReadTurn a → ReadTurn b → ReadTurn (first_of a b)
  first_of-ReadTurn none b p q = q
  first_of-ReadTurn (some t) b p q = p

  append-HasMessage :
      (ms : List TaskMessage) (page : ThreadPage) (ns : List TaskMessage)
      → All HasMessage ms
      → IsServed page
      → ((m : TaskMessage) → Memᴰ m ns → Memᴰ m page.messages)
      → All HasMessage (ms ++ ns)
  append-HasMessage [] page [] p served f = tt
  append-HasMessage [] page (n ∷ ns) p served f = (
    (page, served, f n (Memᴰ.head refl)),
    append-HasMessage [] page ns tt served (λ m e. f m (Memᴰ.tail e)),
  )
  append-HasMessage (m ∷ ms) page ns (p, ps) served f =
      (p, append-HasMessage ms page ns ps served f)

  -- A page that was served adds what it holds.
  pub add_page-ReadScan :
      (id : String) (page : ThreadPage) (scan : Scan)
      → IsServed page
      → ReadScan scan
      → ReadScan (add_page id page scan)
  add_page-ReadScan id page scan served (turn, messages) = (
    first_of-ReadTurn scan.turn _ turn (find_turn-ReadTurn id page _ served refl),
    append-HasMessage scan.messages page page.messages messages served (λ m e. e),
  )

  pub find_message-HasMessage :
      (id : String) (ms : List TaskMessage) (m : TaskMessage)
      → All HasMessage ms
      → find_message id ms ≡ some m
      → HasMessage m
  unfolding find_message
  find_message-HasMessage id [] m p h = cc
  find_message-HasMessage id (n ∷ ms) m (p, ps) h = elim (Bool-cases (text_eq n.id id)) [
    | inl found ↦ let same : n ≡ m = ground arith in rw (← same) p
    | inr later ↦ find_message-HasMessage id ms m ps (ground arith)
  ]
