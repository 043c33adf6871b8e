-- ===== src/Examples/ChatRoom/Rooms.antt =====
-- The clients of examples/chat_room.cpp against the rooms that the websockets are in.
use mevent.Common.{
  ℕ, ◌≡◌, refl, sym, ap, ◌∙◌, subst, inl, inr, Bool, false, not, ◌&&◌, ◌||◌, Bytes, List, [], ◌∷◌,
  Option, some, none, ◌==◌, if◌then◌else◌, arith, Bool-cases, Option-cases,
}
use mevent.Request.{same_bytes}
use mevent.Examples.ChatRoom.{
  Task, ChatRoom, chat_room, set_insert, set_erase, set_clients, unless_empty, leave_room,
  leave_channel, on_close, joined, join, clients_of,
}
use mevent.Examples.ChatRoom.Clients.{
  member, Above, member-set_insert, set_insert-Above, member-set_erase, set_erase-Above,
  same_bytes_refl, same_bytes→≡, at_websocket,
}

-- The room that each websocket is in.
abbrev pub Rooms : Type 0
Rooms = ℕ → Option Bytes

abbrev pub in_room : Option Bytes → Bytes → Bool
in_room none name = false
in_room (some n) name = same_bytes n name

abbrev pub enter : Rooms → ℕ → Bytes → Rooms
enter rooms ws name w = if ws == w then some name else rooms w

abbrev pub exit : Rooms → ℕ → Rooms
exit rooms ws w = if ws == w then none else rooms w

-- The maps of the chat room hold the rooms: the sets are those of the websockets in each room, in
-- their order and not empty, and the index knows the room of each websocket that is in one.
pub record Agrees (chat : ChatRoom) (rooms : Rooms) : Type 0 where
  pub clients :
      (name : Bytes) (ws : ℕ)
      → member ws (clients_of (chat.clients_map name)) ≡ in_room (rooms ws) name
  pub indexed :
      (ws : ℕ) (name : Bytes) → rooms ws ≡ some name → chat.channel_index_map ws ≡ some name
  pub ordered : (name : Bytes) → Above 0 (clients_of (chat.clients_map name))
  pub nonempty :
      (name : Bytes) → chat.clients_map name ≡ unless_empty (clients_of (chat.clients_map name))

pub start-Agrees : Agrees chat_room (λ ws. none)
start-Agrees = record {
  clients = λ name ws. refl;
  indexed = λ ws name e. absurd (ground arith);
  ordered = λ name. tt;
  nonempty = λ name. refl;
}

clients_of-joined :
    (old : Option (List ℕ)) (ws : ℕ) → joined old ws ≡ set_insert ws (clients_of old)
clients_of-joined none ws = refl
clients_of-joined (some clients) ws = refl

insert_nonempty :
    (ws : ℕ) (clients : List ℕ)
    → some (set_insert ws clients) ≡ unless_empty (set_insert ws clients)
unfolding set_insert
insert_nonempty ws [] = refl
insert_nonempty ws (x ∷ clients) = ground arith

clients_of-unless_empty : (clients : List ℕ) → clients_of (unless_empty clients) ≡ clients
clients_of-unless_empty [] = refl
clients_of-unless_empty (x ∷ clients) = refl

-- What holds of the set at one key and of the others holds of the map after an assignment.
set_clients_lem :
    (P : Bytes → Option (List ℕ) → Type 0) (m : Bytes → Option (List ℕ)) (name : Bytes)
    (new : Option (List ℕ))
    → P name new
    → ((n : Bytes) → same_bytes name n ≡ false → P n (m n))
    → (n : Bytes) → P n (set_clients m name new n)
set_clients_lem P m name new here others n = elim (Bool-cases (same_bytes name n)) [
  | inl eq ↦ rw eq (subst (λ k. P k new) (same_bytes→≡ name n eq) here)
  | inr other ↦ rw other (others n other)
]

module _ (chat : ChatRoom) (rooms : Rooms) (ws : ℕ) (a : Agrees chat rooms) where
  -- A websocket is in no other room than the index says.
  in_room_other :
      (name n : Bytes)
      → chat.channel_index_map ws ≡ some name
      → same_bytes name n ≡ false
      → in_room (rooms ws) n ≡ false
  in_room_other name n e other = elim (Option-cases (rooms ws)) [
    | inl out ↦ rw out refl
    | inr (m, inside) ↦
        let same : some m ≡ some name = sym (a.indexed ws m inside) ∙ e in
        rw inside (ap (λ k. in_room k n) same ∙ other)
  ]

  -- A websocket that is in no room joins one.
  pub join-Agrees :
      (name : Bytes) → rooms ws ≡ none → Agrees (join chat ws name) (enter rooms ws name)
  unfolding join
  join-Agrees name out =
      let old = clients_of (chat.clients_map name) in
      let new = clients_of-joined (chat.clients_map name) ws in
      record {
        clients =
            set_clients_lem
              (λ n set. (v : ℕ) → member v (clients_of set) ≡ in_room (enter rooms ws name v) n)
              chat.clients_map name (some (joined (chat.clients_map name) ws))
              (λ v. rw new (
                member-set_insert ws v old
                ∙ at_websocket ws v
                    (λ w here back.
                      (back || member w old) ≡ in_room (if here then some name else rooms w) name)
                    (sym (same_bytes_refl name)) (λ other. a.clients name v)))
              (λ n other v.
                a.clients n v
                ∙ at_websocket ws v
                    (λ w here back.
                      in_room (rooms w) n ≡ in_room (if here then some name else rooms w) n)
                    (ap (λ r. in_room r n) out ∙ sym other) (λ e. refl));
        indexed = λ v n.
            at_websocket ws v
              (λ w here back.
                (if here then some name else rooms w) ≡ some n
                → (if here then some name else chat.channel_index_map w) ≡ some n)
              (λ e. e) (λ other. a.indexed v n);
        ordered =
            set_clients_lem (λ n set. Above 0 (clients_of set)) chat.clients_map name
              (some (joined (chat.clients_map name) ws))
              (rw new (set_insert-Above ws 0 old (omega arith) (a.ordered name)))
              (λ n other. a.ordered n);
        nonempty =
            set_clients_lem (λ n set. set ≡ unless_empty (clients_of set)) chat.clients_map name
              (some (joined (chat.clients_map name) ws)) (rw new (insert_nonempty ws old))
              (λ n other. a.nonempty n);
      }

  exit-indexed : (v : ℕ) (n : Bytes) → exit rooms ws v ≡ some n → chat.channel_index_map v ≡ some n
  exit-indexed v n =
      at_websocket ws v
        (λ w here back.
          (if here then none else rooms w) ≡ some n → chat.channel_index_map w ≡ some n)
        (λ e. absurd (ground arith)) (λ other. a.indexed v n)

  -- A websocket that is in no room leaves none.
  stay-Agrees : ((n : Bytes) → in_room (rooms ws) n ≡ false) → Agrees chat (exit rooms ws)
  stay-Agrees out = record {
    clients = λ n v.
        a.clients n v
        ∙ at_websocket ws v
            (λ w here back. in_room (rooms w) n ≡ in_room (if here then none else rooms w) n)
            (out n) (λ other. refl);
    indexed = exit-indexed;
    ordered = a.ordered;
    nonempty = a.nonempty;
  }

  leave_room-Agrees :
      (name : Bytes) (clients : Option (List ℕ))
      → chat.channel_index_map ws ≡ some name
      → chat.clients_map name ≡ clients
      → Agrees (leave_room chat ws name clients) (exit rooms ws)
  unfolding leave_room
  leave_room-Agrees name none e found = stay-Agrees (λ n. elim (Bool-cases (same_bytes name n)) [
    | inl eq ↦
        subst (λ k. in_room (rooms ws) k ≡ false) (same_bytes→≡ name n eq)
          (sym (a.clients name ws) ∙ ap (λ o. member ws (clients_of o)) found)
    | inr other ↦ in_room_other name n e other
  ])
  leave_room-Agrees name (some clients) e found =
      let left = clients_of-unless_empty (set_erase ws clients) in
      let were : clients_of (chat.clients_map name) ≡ clients = ap clients_of found in
      record {
        clients =
            set_clients_lem
              (λ n set. (v : ℕ) → member v (clients_of set) ≡ in_room (exit rooms ws v) n)
              chat.clients_map name (unless_empty (set_erase ws clients))
              (λ v. rw left (
                member-set_erase ws v 0 clients (subst (Above 0) were (a.ordered name))
                ∙ at_websocket ws v
                    (λ w here back.
                      (not back && member w clients)
                      ≡ in_room (if here then none else rooms w) name)
                    refl (λ other. ap (member v) (sym were) ∙ a.clients name v)))
              (λ n other v.
                a.clients n v
                ∙ at_websocket ws v
                    (λ w here back.
                      in_room (rooms w) n ≡ in_room (if here then none else rooms w) n)
                    (in_room_other name n e other) (λ e. refl));
        indexed = exit-indexed;
        ordered =
            set_clients_lem (λ n set. Above 0 (clients_of set)) chat.clients_map name
              (unless_empty (set_erase ws clients))
              (rw left (set_erase-Above ws 0 clients (subst (Above 0) were (a.ordered name))))
              (λ n other. a.ordered n);
        nonempty =
            set_clients_lem (λ n set. set ≡ unless_empty (clients_of set)) chat.clients_map name
              (unless_empty (set_erase ws clients)) (rw left refl) (λ n other. a.nonempty n);
      }

  leave_channel-Agrees :
      (channel : Option Bytes)
      → chat.channel_index_map ws ≡ channel
      → Agrees (leave_channel chat ws channel) (exit rooms ws)
  unfolding leave_channel
  leave_channel-Agrees none e = stay-Agrees (λ n. elim (Option-cases (rooms ws)) [
    | inl out ↦ rw out refl
    | inr (m, inside) ↦ absurd (ground (arith, a.indexed ws m inside))
  ])
  leave_channel-Agrees (some name) e = leave_room-Agrees name (chat.clients_map name) e refl

  -- A websocket that closes is in no room.
  pub on_close-Agrees : Agrees (on_close chat ws) (exit rooms ws)
  unfolding on_close
  on_close-Agrees = leave_channel-Agrees (chat.channel_index_map ws) refl

-- Only the maps count.
pub queue-Agrees :
    (chat : ChatRoom) (rooms : Rooms) (que : List Task)
    → Agrees chat rooms
    → Agrees (record chat { task_que = que }) rooms
queue-Agrees chat rooms que a = record {
  clients = a.clients;
  indexed = a.indexed;
  ordered = a.ordered;
  nonempty = a.nonempty;
}
