-- ===== src/Server/Game/Watched/Opened.antt =====
-- on_open, and what the clients know of the sectors.
use slitherss.Prelude.{
  ℕ, ◌≡◌, sym, subst, ap, ◌∙◌, false, List, [], ◌∷◌, none, some, arith, ◌==◌, if◌then◌else◌,
  get_elem?,
}
use slitherss.Float.{Float}
use slitherss.Game.Random.{Random}
use slitherss.Game.Sector.Sites.{sites, IsGrid}
use slitherss.Game.Snake.{Snake}
use slitherss.Game.Tick.Seen.{Tells}
use slitherss.Game.World.{find_snake}
use slitherss.Game.World.Create.{next_id}
use slitherss.Game.World.Sound.{has}
use slitherss.Server.Game.{Clock, Server}
use slitherss.Server.Game.Update.{put_back, send_pov_update_to}
use slitherss.Server.Game.Handlers.{connect, on_open}
use slitherss.Server.Game.Linked.{snake_of, IsLinked, IsIdle}
use slitherss.Server.Game.Linked.Opened.{connect-IsLinked, connect-session, connect-found}
use slitherss.Server.Game.Linked.Rounds.{like-Rounds}
use slitherss.Server.Game.Linked.Told.{send_pov-Tells}
use slitherss.Server.Game.Replay.Shown.{shown}
use slitherss.Server.Game.Watched.{Sees, Watches, Watches-IsCalm}
use slitherss.Server.Game.Watched.Round.{Owned-Informs}
use slitherss.Server.Game.Watched.Rounds.{put_back-Watches}
use slitherss.Server.Game.Watched.Ticked.{Sees-none}
use slitherss.Server.Game.Watched.Told.{send_pov-Owned}
use slitherss.Server.Game.Watched.Arrived.{
  placed, new-Tells, connect-ses, connect-find, connect-sites, introduce-shown, placed-shown,
  send_pov-other, placed-IsLike, connect-shown, settled, on_open-settled, told-Tells, introduced,
}

module _ {F : Type 0} ⦃float : Float F⦄ {G : Type 0} ⦃clock : Clock G⦄ ⦃random : Random G⦄
    (ps : List (ℕ × ℕ)) (j x y : ℕ) (grid : IsGrid ps) (here : get_elem? ps j ≡ some (x, y))
    (hdl : ℕ) (srv : Server F G) (free : has (next_id srv.world) srv.world.snakes ≡ false)
    (fresh : snake_of hdl srv.sessions ≡ none) (v : IsIdle srv) (e : sites srv.world.sectors ≡ ps)
    (w : Watches j x y [] srv) where
  abbrev after : Snake F × Server F G
  after =
      let connected = connect hdl srv in
      send_pov_update_to (some hdl) connected.0 (placed connected.0 connected.1)

  linked : IsLinked (connect hdl srv).1
  linked = connect-IsLinked hdl srv free fresh v.alive v.linked

  -- The other snakes are those that there were.
  others :
      (h i : ℕ) (t : Snake F)
      → snake_of h (connect hdl srv).1.sessions ≡ some i
      → find_snake i (connect hdl srv).1.world.snakes ≡ some t
      → t.update.dying ≡ false
      → ((connect hdl srv).0.id == i) ≡ false
      → Sees j (shown x y h (connect hdl srv).1) ((connect hdl srv).0.id ∷ []) t
  others h i t known found alive ne =
      let other : (hdl == h) ≡ false = ground (arith, connect-session hdl srv, known, ne) in
      let ses : snake_of h srv.sessions ≡ some i =
        ground (arith, connect-ses hdl srv h, other, known) in
      let old : find_snake i srv.world.snakes ≡ some t =
        ground (arith, connect-find hdl srv free i, ne, found) in
      let same : shown x y h (connect hdl srv).1 ≡ shown x y h srv =
        connect-shown x y h hdl srv ∙ ap (λ b. if b then false else shown x y h srv) other in
      subst (λ b. Sees j b ((connect hdl srv).0.id ∷ []) t) (sym same)
        (Sees-none j (shown x y h srv) ((connect hdl srv).0.id ∷ []) t (w h i t ses old alive))

  -- The new client sees its snake.
  new-Sees : Sees j (shown x y hdl after.1) [] after.0
  new-Sees =
      let connected = connect hdl srv in
      let s = connected.0 in
      let first = placed s connected.1 in
      let (tells, still, living) = new-Tells j hdl srv in
      let unknown : shown x y hdl first ≡ false =
        placed-shown x y hdl s connected.1 ∙ connect-shown x y hdl hdl srv ∙ ground arith in
      let two = placed-IsLike s connected.1 in
      let own =
        send_pov-Owned x y hdl ps j grid here s first s.id (two.ses hdl ∙ connect-session hdl srv)
          (ap (λ u. sites u.sectors) two.world ∙ connect-sites hdl srv ∙ e) in
      let known =
        Owned-Informs x y hdl j s first after (subst (λ b. Tells j b s.vp) (sym unknown) tells)
          still own in
      record {
        tells = known.tells;
        quiet = λ _. known.told;
        news = λ moved. absurd (ground (arith, moved, known.pos));
        living = ap (λ f. f.1) known.same ∙ living;
      }

  opened-Watches : Watches j x y [] (put_back (connect hdl srv).0.id after)
  opened-Watches =
      let connected = connect hdl srv in
      let s = connected.0 in
      let mine = connect-session hdl srv in
      let told = told-Tells hdl srv free in
      let seen =
        send_pov-Tells hdl s.id s (placed s connected.1)
          ((placed-IsLike s connected.1).ses hdl ∙ mine) in
      let r = like-Rounds s after.0 connected.1 after.1 seen.same told in
      put_back-Watches j x y s.id [] s connected.1 (connect-found hdl srv free) linked others
        after.0 after.1 r
        (λ h i known ne.
          let other : (hdl == h) ≡ false = ground (arith, mine, known, ne) in
          send_pov-other x y h hdl other s (placed s connected.1)
          ∙ placed-shown x y h s connected.1)
        (λ h known alive.
          let c = (linked.ses h s.id known).0 in
          let c' = (linked.ses hdl s.id mine).0 in
          let same : hdl ≡ h = ground (arith, c, c') in
          subst (λ k. Sees j (shown x y k after.1) [] after.0) same new-Sees)

  pub on_open-Watches :
      Watches j x y [] (on_open hdl srv) × (sites (on_open hdl srv).world.sectors ≡ ps)
  on_open-Watches =
      let back = settled hdl srv in
      let like = introduced hdl srv free in
      let told = told-Tells hdl srv free in
      let heard = λ (h : ℕ).
        subst (λ (done : Server F G). shown x y h done ≡ shown x y h back)
          (sym (on_open-settled hdl srv free))
          (introduce-shown x y h hdl (connect hdl srv).0.id back.world.snakes back) in
      (
        Watches-IsCalm j x y [] back (on_open hdl srv)
            (record { world = like.world; ses = like.ses; heard = heard }) opened-Watches,
        ap (λ u. sites u.sectors) like.world
            ∙ ap (λ u. sites u.sectors) told.world
            ∙ connect-sites hdl srv
            ∙ e,
      )
