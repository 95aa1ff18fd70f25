-- ===== src/Server/Game/Linked/Rounds.antt =====
-- The rounds of BroadcastUpdates and RemoveDeadSnakes, and what ties the server together.
use slitherss.Prelude.{
  ℕ, ◌≡◌, sym, subst, ap, ◌∙◌, true, false, not, List, [], ◌∷◌, none, some, arith, ◌==◌,
  if◌then◌else◌, All, elem,
}
use slitherss.Game.BoundBox.Register.{enlisted}
use slitherss.Game.Snake.{Snake}
use slitherss.Game.Death.Kept.{self, SameLists}
use slitherss.Game.World.{World, find_snake, update_snake}
use slitherss.Game.World.Sound.{has, IsSound, IsOwn, IsUnique}
use slitherss.Game.World.Sound.Fed.{sectors-IsSound}
use slitherss.Game.World.Sound.Ticks.{update_snake-IsSound}
use slitherss.Game.World.Sound.Entering.{find_snake-IsOwn}
use slitherss.Server.Maps.{find_key}
use slitherss.Server.Game.{Server}
use slitherss.Server.Game.Update.{put_back}
use slitherss.Server.Game.Linked.{snake_of, is_player, IsLinked, IsLike}
use slitherss.Server.Game.Linked.Told.{IsServed}

module _ {F : Type 0} where
  pub find_snake-update_snake :
      (id j : ℕ) (f : Snake F → Snake F) (snakes : List (ℕ × Snake F))
      → find_snake j (update_snake id f snakes) ≡ (
          if id == j
          then elim (find_snake j snakes) [ none ↦ none | some s ↦ some (f s) ]
          else find_snake j snakes)
  unfolding find_snake update_snake
  find_snake-update_snake id j f [] = ground arith
  find_snake-update_snake id j f ((k, s) ∷ rest) =
      ground (arith, find_snake-update_snake id j f rest)

module _ {F G : Type 0} where
  -- A server after a round: the snake is told of, and the lists of the sectors are the same.
  pub record Rounds (s : Snake F) (srv : Server F G) (s' : Snake F) (srv' : Server F G)
      : Type 0 where
    pub same : self s' ≡ self s
    pub snakes : srv'.world.snakes ≡ srv.world.snakes
    pub changes : srv'.world.changes ≡ srv.world.changes
    pub dead : srv'.world.dead ≡ srv.world.dead
    pub lists : SameLists srv.world.sectors srv'.world.sectors
    pub connections : srv'.connections ≡ srv.connections
    pub ses : (h : ℕ) → snake_of h srv'.sessions ≡ snake_of h srv.sessions
    pub safe : srv'.is_lost ≡ srv.is_lost

  module _ (id : ℕ) (s s' : Snake F) (srv srv' : Server F G)
      (found : find_snake id srv.world.snakes ≡ some s) (r : Rounds s srv s' srv') where
    pub put_back-player :
        (j : ℕ) → is_player j (put_back id (s', srv')).world ≡ is_player j srv.world
    put_back-player j =
        let bot : s'.bot ≡ s.bot = ap (λ i. i.1.0) r.same in
        ap
          (λ l. elim (find_snake j (update_snake id (λ _. s') l)) [
            | none ↦ false
            | some t ↦ not t.bot
          ])
          r.snakes
        ∙ ground
            (arith, find_snake-update_snake id j (λ (_ : Snake F). s') srv.world.snakes, found, bot)

    put_back-IsSound : IsSound srv.world → IsSound (put_back id (s', srv')).world
    put_back-IsSound v =
        let ss = srv'.world.sectors in
        let fed = sectors-IsSound srv.world ss r.lists v in
        let fed_world : World F = record srv.world { sectors = ss } in
        let kept =
          update_snake-IsSound fed_world id (λ _. s')
            (λ t e.
              let it : s ≡ t = ground (arith, found, e) in
              (
                ap (λ i. i.0) r.same ∙ ap (λ i. i.id) it,
                ap (λ i. i.1.1) r.same ∙ ap (λ i. i.sbb) it,
              ))
            fed in
        let back = λ (l : List (ℕ × Snake F)). update_snake id (λ _. s') l in
        record {
          own = subst (λ l. All (IsOwn ss) (back l)) (sym r.snakes) kept.own;
          unique = subst (λ l. IsUnique (back l)) (sym r.snakes) kept.unique;
          strays = λ i k h. kept.strays i k (subst (λ l. has i (back l) ≡ false) r.snakes h);
          changed = λ i h.
              subst (λ l. has i (back l) ≡ true) (sym r.snakes)
                (kept.changed i (subst (λ c. elem i c ≡ true) r.changes h));
        }

    pub put_back-IsLinked : IsLinked srv → IsLinked (put_back id (s', srv'))
    put_back-IsLinked v = record {
      sound = put_back-IsSound v.sound;
      safe = r.safe ∙ v.safe;
      ses = λ h i e.
          let known = v.ses h i (sym (r.ses h) ∙ e) in
          (ap (find_key i) r.connections ∙ known.0, put_back-player i ∙ known.1);
      con = λ i h e. r.ses h ∙ v.con i h (ap (find_key i) (sym r.connections) ∙ e);
      own = λ i p.
          let (h, c) = v.own i (sym (put_back-player i) ∙ p) in
          (h, ap (find_key i) r.connections ∙ c);
      dead = λ i e. put_back-player i ∙ v.dead i (subst (λ l. elem i l ≡ true) r.dead e);
    }

  pub like-Rounds :
      (s s' : Snake F) (srv srv' : Server F G)
      → self s' ≡ self s
      → IsLike srv srv'
      → Rounds s srv s' srv'
  like-Rounds s s' srv srv' e l = record {
    same = e;
    snakes = ap (λ w. w.snakes) l.world;
    changes = ap (λ w. w.changes) l.world;
    dead = ap (λ w. w.dead) l.world;
    lists = λ id k. ap (λ w. enlisted w.sectors id k) l.world;
    connections = l.connections;
    ses = l.ses;
    safe = l.safe;
  }

  pub Rounds-trans :
      {a b c : Snake F} {x y z : Server F G} → Rounds a x b y → Rounds b y c z → Rounds a x c z
  Rounds-trans p q = record {
    same = q.same ∙ p.same;
    snakes = q.snakes ∙ p.snakes;
    changes = q.changes ∙ p.changes;
    dead = q.dead ∙ p.dead;
    lists = λ id k. q.lists id k ∙ p.lists id k;
    connections = q.connections ∙ p.connections;
    ses = λ h. q.ses h ∙ p.ses h;
    safe = q.safe ∙ p.safe;
  }

  -- What a linked server knows of a snake that it finds
  pub served :
      (id : ℕ) (s : Snake F) (srv : Server F G)
      → find_snake id srv.world.snakes ≡ some s
      → IsLinked srv
      → (s.id ≡ id) × IsServed (s, srv)
  served id s srv found v =
      let o = find_snake-IsOwn srv.world.sectors id s srv.world.snakes found v.sound.own in
      (
        o.id,
        λ player.
            let there : is_player s.id srv.world ≡ true = ground (arith, o.id, found, player) in
            let (h, c) = v.own s.id there in (h, c, v.con s.id h c),
      )
