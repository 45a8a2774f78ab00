-- ===== src/Flow/Link.antt =====
-- One direction of a channel: the sending endpoint, the receiving endpoint, and what is on the way
-- between them. Both ends run flow.rs; the transport keeps the order and loses nothing.
use enzarb.Base.{ℕ, ◌+◌, ◌≡◌, Bool, true, false, Option, none, some, List, [], ◌∷◌, ◌++◌, ok}
use enzarb.Flow.{
  FlowControl, new, on_send, on_window, close_local, on_data, release, flush_grant, on_close_remote,
}

-- A data frame of so many bytes, or the CLOSE frame.
pub data Item : Type 0 where
  payload : ℕ → Item
  closing : Item

pub record Link : Type 0 where
  pub sender : FlowControl
  pub receiver : FlowControl
  -- Frames to the receiver and credits to the sender, the oldest first.
  pub wire : List Item
  pub grants : List ℕ

abbrev pub bytes : List Item → ℕ
bytes [] = 0
bytes (payload n ∷ is) = n + bytes is
bytes (closing ∷ is) = bytes is

abbrev pub sum : List ℕ → ℕ
sum [] = 0
sum (g ∷ gs) = g + sum gs

abbrev pub to_list : Option ℕ → List ℕ
to_list none = []
to_list (some g) = g ∷ []

-- A fresh channel: each side starts with the window that the other grants it.
abbrev pub opened : ℕ → Link
opened w = record { sender = new w w; receiver = new w w; wire = []; grants = [] }

pub data Step : Link → Link → Type 0 where
  send :
      (l : Link) (n : ℕ) (c : FlowControl)
      → on_send l.sender n ≡ ok c
      → Step l (record l { sender = c; wire = l.wire ++ (payload n ∷ []) })
  close :
      (l : Link) (c : FlowControl)
      → close_local l.sender ≡ ok c
      → Step l (record l { sender = c; wire = l.wire ++ (closing ∷ []) })
  deliver :
      (l : Link) (n : ℕ) (rest : List Item) (c : FlowControl)
      → l.wire ≡ payload n ∷ rest
      → on_data l.receiver n ≡ ok c
      → Step l (record l { receiver = c; wire = rest })
  deliver_close :
      (l : Link) (rest : List Item)
      → l.wire ≡ closing ∷ rest
      → Step l (record l { receiver = on_close_remote l.receiver; wire = rest })
  consume :
      (l : Link) (n : ℕ) (c : FlowControl) (g : Option ℕ)
      → release l.receiver n ≡ ok (c, g)
      → Step l (record l { receiver = c; grants = l.grants ++ to_list g })
  flush :
      (l : Link)
      → Step l (record l {
        receiver = (flush_grant l.receiver).0;
        grants = l.grants ++ to_list (flush_grant l.receiver).1;
      })
  grant :
      (l : Link) (g : ℕ) (rest : List ℕ) (c : FlowControl)
      → l.grants ≡ g ∷ rest
      → on_window l.sender g ≡ ok c
      → Step l (record l { sender = c; grants = rest })

pub data Reach (s : Link) : Link → Type 0 where
  here : Reach s s
  next : {t u : Link} → Reach s t → Step t u → Reach s u

-- No CLOSE is on the way, or it is the last frame.
abbrev pub IsOpen : List Item → Type 0
IsOpen [] = Unit {0}
IsOpen (payload n ∷ is) = IsOpen is
IsOpen (closing ∷ is) = ⊥

abbrev pub IsClosing : List Item → Type 0
IsClosing [] = ⊥
IsClosing (payload n ∷ is) = IsClosing is
IsClosing (closing ∷ is) = is ≡ []

-- What may be on the way, by whether the sender closed and whether the receiver knows it.
abbrev pub InOrder : Bool → Bool → List Item → Type 0
InOrder false false is = IsOpen is
InOrder false true is = ⊥
InOrder true false is = IsClosing is
InOrder true true is = is ≡ []
