-- ===== src/Server/Game/Replay/Shown.antt =====
-- The sectors that a client knows by the packets that came to it.
use slitherss.Prelude.{
  ℕ, ◌≡◌, refl, ap, ◌∙◌, Bool, true, false, not, ◌&&◌, ◌||◌, inl, inr, List, [], ◌∷◌, some, arith,
  ◌==◌, if◌then◌else◌, Option-cases, get_elem?, elem,
}
use slitherss.Float.{Float}
use slitherss.Game.Sector.Sites.{sites, IsGrid, site-none, site-some}
use slitherss.Packet.Body.{packet_add_sector, packet_remove_sector}
use slitherss.Packet.Wire.{Packet, sector, set_food, init}
use slitherss.Server.Maps.{find_key}
use slitherss.Server.Game.{Clock, Session, Server, send_binary}
use slitherss.Server.Game.Update.{send_new, send_old}
use slitherss.Server.Game.Linked.{snake_of, send_binary-IsLike, IsLike-trans}
use slitherss.Server.Game.Replay.{replayed, send-Reacts, send-quiet, send-other}

-- What a packet makes of the knowledge of the sector at x, y: a client starts anew with packet_init.
abbrev pub show : {F : Type 0} → ℕ → ℕ → Packet F → Bool → Bool
show x y (sector p) b = if p.x == x && p.y == y then p.base.packet_type == b'W' else b
show x y (init p) b = false
show x y p b = b

session_of :
    {F G : Type 0} (h id : ℕ) (srv : Server F G)
    → snake_of h srv.sessions ≡ some id
    → (ses : Session) × (find_key h srv.sessions ≡ some ses)
session_of h id srv v = elim (Option-cases (find_key h srv.sessions)) [
  | inl gone ↦ absurd (ground (arith, gone, v))
  | inr found ↦ found
]

module _ {F : Type 0} ⦃float : Float F⦄ {G : Type 0} ⦃clock : Clock G⦄ where
  -- Whether the client of h knows the sector at x, y
  abbrev pub shown : ℕ → ℕ → ℕ → Server F G → Bool
  shown x y h srv = replayed (show x y) h false srv

  module _ (h id : ℕ) (ps : List (ℕ × ℕ)) (j x y : ℕ) (grid : IsGrid ps)
      (here : get_elem? ps j ≡ some (x, y)) where
    -- The loops of SendPOVUpdateTo, for the client itself
    pub send_new-shown :
        (ks : List ℕ) (srv : Server F G)
        → snake_of h srv.sessions ≡ some id
        → sites srv.world.sectors ≡ ps
        → shown x y h (send_new (some h) ks srv) ≡ (shown x y h srv || elem j ks)
    unfolding send_new packet_add_sector
    send_new-shown [] srv v e = ground arith
    send_new-shown (k ∷ ks) srv v e = elim (Option-cases (get_elem? srv.world.sectors k)) [
      | inl gone ↦
          rw (gone, send_new)
            (ground (
              arith,
              send_new-shown ks srv v e,
              site-none srv.world.sectors ps e k j x y here gone,
            ))
      | inr (sec, found) ↦
          let add = sector (packet_add_sector sec.x sec.y) in
          let food = set_food (record { client_time = 0; food = sec.food }) in
          let one = send_binary (some h) add srv in
          let two = send_binary (some h) food one in
          let l = send_binary-IsLike h id add srv v in
          let l' = IsLike-trans l (send_binary-IsLike h id food one (l.ses h ∙ v)) in
          let (ses, known) = session_of h id srv v in
          let told : shown x y h two ≡ (if k == j then true else shown x y h srv) =
            send-quiet (show x y) h false (some h) food one (λ t b. refl)
            ∙ send-Reacts (show x y) h false (λ b. if sec.x == x && sec.y == y then true else b) h
                add srv (λ t b. refl) known
            ∙ ground (arith, site-some srv.world.sectors ps e k j x y here sec grid found) in
          rw (found, send_new)
            (ground (
              arith,
              send_new-shown ks two (l'.ses h ∙ v) (ap (λ w. sites w.sectors) l'.world ∙ e),
              told,
            ))
    ]

    pub send_old-shown :
        (ks : List ℕ) (srv : Server F G)
        → snake_of h srv.sessions ≡ some id
        → sites srv.world.sectors ≡ ps
        → shown x y h (send_old (some h) ks srv) ≡ (shown x y h srv && not (elem j ks))
    unfolding send_old packet_remove_sector
    send_old-shown [] srv v e = ground arith
    send_old-shown (k ∷ ks) srv v e = elim (Option-cases (get_elem? srv.world.sectors k)) [
      | inl gone ↦
          rw (gone, send_old)
            (ground (
              arith,
              send_old-shown ks srv v e,
              site-none srv.world.sectors ps e k j x y here gone,
            ))
      | inr (sec, found) ↦
          let remove = sector (packet_remove_sector sec.x sec.y) in
          let one = send_binary (some h) remove srv in
          let l = send_binary-IsLike h id remove srv v in
          let (ses, known) = session_of h id srv v in
          let told : shown x y h one ≡ (if k == j then false else shown x y h srv) =
            send-Reacts (show x y) h false (λ b. if sec.x == x && sec.y == y then false else b) h
              remove srv (λ t b. refl) known
            ∙ ground (arith, site-some srv.world.sectors ps e k j x y here sec grid found) in
          rw (found, send_old)
            (ground (
              arith,
              send_old-shown ks one (l.ses h ∙ v) (ap (λ w. sites w.sectors) l.world ∙ e),
              told,
            ))
    ]

  -- Those of another client are nothing to it.
  module _ (x y h h' : ℕ) (other : (h' == h) ≡ false) where
    pub send_new-other :
        (ks : List ℕ) (srv : Server F G) → shown x y h (send_new (some h') ks srv) ≡ shown x y h srv
    unfolding send_new
    send_new-other [] srv = refl
    send_new-other (k ∷ ks) srv = elim (Option-cases (get_elem? srv.world.sectors k)) [
      | inl gone ↦ rw (gone, send_new) (send_new-other ks srv)
      | inr (sec, found) ↦
          let add = sector (packet_add_sector sec.x sec.y) in
          let food = set_food (record { client_time = 0; food = sec.food }) in
          let one = send_binary (some h') add srv in
          rw (found, send_new)
            (send_new-other ks (send_binary (some h') food one)
              ∙ send-other (show x y) h false h' food one other
              ∙ send-other (show x y) h false h' add srv other)
    ]

    pub send_old-other :
        (ks : List ℕ) (srv : Server F G) → shown x y h (send_old (some h') ks srv) ≡ shown x y h srv
    unfolding send_old
    send_old-other [] srv = refl
    send_old-other (k ∷ ks) srv = elim (Option-cases (get_elem? srv.world.sectors k)) [
      | inl gone ↦ rw (gone, send_old) (send_old-other ks srv)
      | inr (sec, found) ↦
          let remove = sector (packet_remove_sector sec.x sec.y) in
          rw (found, send_old)
            (send_old-other ks (send_binary (some h') remove srv)
              ∙ send-other (show x y) h false h' remove srv other)
    ]
