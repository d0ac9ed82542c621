-- ===== src/Contracts/Instances/Cleanup.antt =====
-- scripts/harness-oracles.py: how `run_multi_instance_oracle` ends.
use coffee_order_system.Prelude.{
  ℕ, ℤ, ◌≡◌, refl, ap, ◌∙◌, subst, Bool, true, false, not, sym, decode_replace, List, [], ◌∷◌, ◌++◌,
  ==_iff, int_eq, Text, txt, arith,
}
use coffee_order_system.Outcome.{about}
use coffee_order_system.Publish.{number_text}
use coffee_order_system.System.{Raised, returned}
use coffee_order_system.Contracts.{
  Reply, replied, oracle_failure, os_error, escaped, Ended, ended, not_found, timed_out, not_run,
  raised_as, or_raised-eq-replied, Host, Task, reply, fail_if, require_file, reply_injective,
  carry_on-eq-replied, bind-eq-replied, fail_if-eq-replied,
}
use coffee_order_system.Contracts.Instances.{
  output_of_end, Project, project_of, config_command, up_command, smoke_command, down_command,
  ended_well, run_command, run_shown, run_instances, clean_up, then_finally, with_cleanup,
  free_port_number, run_multi_instance_oracle,
}

zero_of : (code : ℤ) → not (ended_well code) ≡ false → code ≡ ℤ.pos 0
zero_of code h = ground (arith, h)

raised_as-no_reply : {A : Type 0} (e : Raised) {a : A} → raised_as e ≡ replied a → ⊥
unfolding raised_as
raised_as-no_reply e h = ground (arith, h)

-- Only a process that ended with 0 counts as one.
zero_ended :
    (result : Ended) {output : Text}
    → output_of_end result ≡ replied (ℤ.pos 0, output)
    → (stdout : List ℕ) × (stderr : List ℕ) × (result ≡ ended (ℤ.pos 0) stdout stderr)
      × (output ≡ decode_replace (stdout ++ stderr))
unfolding output_of_end
zero_ended (ended code stdout stderr) h =
    let same = reply_injective h in
    (stdout, stderr, ap (λ p. ended p.0 stdout stderr) same, ap (λ p. p.1) (sym same))
zero_ended (not_found e) h = absurd (ground (arith, ap (λ p. p.0) (reply_injective h)))
zero_ended (timed_out stdout stderr) h = absurd (ground (arith, ap (λ p. p.0) (reply_injective h)))
zero_ended (not_run e) h = absurd (raised_as-no_reply e h)

module _ (host : Host) (root : Text) where
  open host use {World, run, print, process_id, seconds, free_port}

  -- The command ran in this environment and ended with 0; then its output was printed.
  pub record Ran (command : List Text) (environment : List (Text × Text)) (timeout : ℕ)
      (w w' : World) : Type 0 where
    pub stdout : List ℕ
    pub stderr : List ℕ
    pub after : World
    pub ran :
        run root command ((txt "PYTHONDONTWRITEBYTECODE", txt "1") ∷ environment) timeout w
        ≡ (ended (ℤ.pos 0) stdout stderr, after)
    pub shown : (print (decode_replace (stdout ++ stderr)) after).1 ≡ w'

  shown_zero :
      (command : List Text) (project : Project) (timeout : ℕ) (w : World) {w' : World}
      → run_shown host root command project timeout w ≡ (replied (ℤ.pos 0), w')
      → Ran command project.environment timeout w w'
  unfolding run_shown run_command
  shown_zero command project timeout w {w'} h =
      let (result, u) =
        run root command ((txt "PYTHONDONTWRITEBYTECODE", txt "1") ∷ project.environment) timeout
          w in
      let (pair, end, h1) = carry_on-eq-replied (output_of_end result) _ u h in
      let zero = reply_injective (ap (λ r. r.0) h1) in
      let (stdout, stderr, same, printed) =
        zero_ended result (end ∙ ap (λ c. replied (c, pair.1)) zero) in
      record {
        stdout = stdout;
        stderr = stderr;
        after = u;
        ran = ap (λ r. (r, u)) same;
        shown = ap (λ t. (print t u).1) (sym printed) ∙ ap (λ r. r.1) h1;
      }

  run_shown-Ran :
      (command : List Text) (project : Project) (timeout : ℕ) (w : World) {code : ℤ} {w' : World}
      → run_shown host root command project timeout w ≡ (replied code, w')
      → code ≡ ℤ.pos 0
      → Ran command project.environment timeout w w'
  run_shown-Ran command project timeout w {code} {w'} h zero =
      shown_zero command project timeout w (h ∙ ap (λ c. (replied c, w')) zero)

  -- The three commands of the body ended with 0, one after the other.
  pub record AllRan (compose : List Text) (environment : List (Text × Text)) (w w' : World)
      : Type 0 where
    pub w1 : World
    pub config : Ran (compose ++ (txt "config" ∷ txt "--quiet" ∷ [])) environment 900 w w1
    pub w2 : World
    pub up :
        Ran
          (compose ++ (txt "up" ∷ txt "-d" ∷ txt "--build" ∷ txt "--wait" ∷ []))
          environment
          1200
          w1
          w2
    pub w3 : World
    pub smoke : Ran (txt "sh" ∷ txt "scripts/multi-instance-smoke.sh" ∷ []) environment 300 w2 w3
    pub announced : (print (txt "ORACLE PASS: oracle.multi-instance" ++ 10 ∷ []) w3).1 ≡ w'

  unless_go :
      (b : Bool) (code : ℤ) (next : Task World ℤ) (w : World) {w' : World}
      → ended_well code ≡ b
      → (elim b as (λ c. Task World ℤ) [ true ↦ next | false ↦ reply (replied code) ]) w
        ≡ (replied (ℤ.pos 0), w')
      → (code ≡ ℤ.pos 0) × (next w ≡ (replied (ℤ.pos 0), w'))
  unless_go true code next w e h = ((==_iff code (ℤ.pos 0)).0 e, h)
  unless_go false code next w e h =
      let zero = (==_iff code (ℤ.pos 0)).1 (reply_injective (ap (λ r. r.0) h)) in
      absurd (ground (arith, zero, e))

  run_instances-AllRan :
      (project : Project) (w : World) {w' : World}
      → run_instances host root project w ≡ (replied (ℤ.pos 0), w')
      → AllRan project.compose project.environment w w'
  unfolding run_instances
  run_instances-AllRan project w {w'} h =
      let (config, w1, configured, h1) =
        bind-eq-replied (run_shown host root (config_command project) project 900) _ w h in
      let (config_zero, h2) = unless_go (ended_well config) config _ w1 refl h1 in
      let (up, w2, started, h3) =
        bind-eq-replied (run_shown host root (up_command project) project 1200) _ w1 h2 in
      let (up_zero, h4) = unless_go (ended_well up) up _ w2 refl h3 in
      let (smoke, w3, tested, h5) =
        bind-eq-replied (run_shown host root smoke_command project 300) _ w2 h4 in
      let (smoke_zero, h6) = unless_go (ended_well smoke) smoke _ w3 refl h5 in
      record {
        w1 = w1;
        config = run_shown-Ran (config_command project) project 900 w configured config_zero;
        w2 = w2;
        up = run_shown-Ran (up_command project) project 1200 w1 started up_zero;
        w3 = w3;
        smoke = run_shown-Ran smoke_command project 300 w2 tested smoke_zero;
        announced = ap (λ r. r.1) h6;
      }

  -- The removal of the project, which ended with 0.
  abbrev pub Removed : List Text → List (Text × Text) → World → World → Type 0
  Removed compose environment =
      Ran (compose ++ (txt "down" ∷ txt "-v" ∷ txt "--remove-orphans" ∷ [])) environment 180

  clean_up-Ran :
      (project : Project) (w : World) {w' : World}
      → clean_up host root project w ≡ (replied tt, w')
      → Removed project.compose project.environment w w'
  unfolding clean_up
  clean_up-Ran project w {w'} h =
      let (code, w1, ran, h1) =
        bind-eq-replied (run_shown host root (down_command project) project 180) _ w h in
      let zero =
        zero_of code
          (fail_if-eq-replied (not (ended_well code)) (about (txt "cleanup")) (ap (λ r. r.0) h1)) in
      subst (Removed project.compose project.environment w) (ap (λ r. r.1) h1)
        (run_shown-Ran (down_command project) project 180 w ran zero)

  -- The body ended in some way at `w1`, and the cleanup after it ended with 0 at `w'`.
  pub record Cleaned (project : Project) (w : World) (result : Reply ℤ) (w' : World) : Type 0 where
    pub w1 : World
    pub body : run_instances host root project w ≡ (result, w1)
    pub down : Removed project.compose project.environment w1 w'

  finally_go :
      (project : Project) (w : World) (result : Reply ℤ) (w1 : World) (cleaned : Reply (Unit {0}))
      {code : ℤ} {w' : World}
      → run_instances host root project w ≡ (result, w1)
      → clean_up host root project w1 ≡ (cleaned, w')
      → then_finally host cleaned result ≡ replied code
      → Cleaned project w (replied code) w'
  finally_go project w result w1 (replied u) {code} e f h = record {
    w1 = w1;
    body = e ∙ ap (λ r. (r, w1)) h;
    down = clean_up-Ran project w1 f;
  }
  finally_go project w result w1 (oracle_failure r) e f h = absurd (ground (arith, h))
  finally_go project w result w1 (os_error r) e f h = absurd (ground (arith, h))
  finally_go project w result w1 (escaped r) e f h = absurd (ground (arith, h))

  with_cleanup-Cleaned :
      (project : Project) (w : World) {code : ℤ} {w' : World}
      → with_cleanup host root project w ≡ (replied code, w')
      → Cleaned project w (replied code) w'
  unfolding with_cleanup
  with_cleanup-Cleaned project w {code} {w'} h =
      let (result, w1) = run_instances host root project w in
      let (cleaned, w2) = clean_up host root project w1 in
      subst (Cleaned project w (replied code)) (ap (λ r. r.1) h)
        (finally_go project w result w1 cleaned refl refl (ap (λ r. r.0) h))

  free_port_number-returned :
      (w : World) {n : ℕ} {w' : World}
      → free_port_number host w ≡ (replied n, w')
      → free_port w ≡ (returned n, w')
  unfolding free_port_number
  free_port_number-returned w {n} h =
      let (port, u) = free_port w in
      let same = ap (λ r. r.1) h in
      ap (λ p. (p, u)) (or_raised-eq-replied port (ap (λ r. r.0) h))
      ∙ ap (λ t. (returned n, t)) same

  -- What an exit code of `run_multi_instance_oracle` stands on: a project that is named after the process and the
  -- time, with three free ports, in which the body ran and which was then removed.
  pub record Instances (code : ℤ) (w' : World) : Type 0 where
    pub pid : ℕ
    pub now : ℕ
    pub gateway : ℕ
    pub db : ℕ
    pub redis : ℕ
    pub name : Text
    pub named : name ≡ txt "coffee-oracle-" ++ (number_text pid ++ (txt "-" ++ number_text now))
    pub compose : List Text
    pub composed : compose ≡ txt "docker" ∷ txt "compose" ∷ txt "-p" ∷ name ∷ []
    pub environment : List (Text × Text)
    pub set :
        environment
        ≡ (txt "COMPOSE_PROJECT_NAME", name)
          ∷ (txt "GATEWAY_PORT", number_text gateway)
          ∷ (txt "DB_PORT", number_text db)
          ∷ (txt "REDIS_PORT", number_text redis)
          ∷ (txt "GATEWAY_URL", txt "http://127.0.0.1:" ++ number_text gateway)
          ∷ []
    pub w1 : World
    pub w2 : World
    pub pid_read : process_id w1 ≡ (pid, w2)
    pub w3 : World
    pub now_read : seconds w2 ≡ (now, w3)
    pub w4 : World
    pub gateway_free : free_port w3 ≡ (returned gateway, w4)
    pub w5 : World
    pub db_free : free_port w4 ≡ (returned db, w5)
    pub w6 : World
    pub redis_free : free_port w5 ≡ (returned redis, w6)
    pub w7 : World
    pub body :
        run_instances host root (record { environment = environment; compose = compose }) w6
        ≡ (replied code, w7)
    pub passed : code ≡ ℤ.pos 0 → AllRan compose environment w6 w7
    pub removed : Removed compose environment w7 w'

  -- When `run_multi_instance_oracle` gives an exit code, its last command was `docker compose -p <name> down -v
  -- --remove-orphans`, which ended with 0, where the name was made of the process id and the time that were read in
  -- the run, with three ports that were free; and the code is 0 only if before that `config`, `up` and the smoke
  -- script were run for the same project and in the same environment, in this order, and each ended with 0.
  pub run_multi_instance_oracle-Instances :
      (w : World) {code : ℤ} {w' : World}
      → run_multi_instance_oracle host root w ≡ (replied code, w')
      → Instances code w'
  unfolding run_multi_instance_oracle
  run_multi_instance_oracle-Instances w h =
      let (f1, w1, e1, h1) = bind-eq-replied (require_file host root (txt "compose.yaml")) _ w h in
      let (f2, w2, e2, h2) =
        bind-eq-replied (require_file host root (txt "nginx/default.conf")) _ w1 h1 in
      let (smoke, w3, e3, h3) =
        bind-eq-replied (require_file host root (txt "scripts/multi-instance-smoke.sh")) _ w2 h2 in
      let (executable, w4) = host.is_executable smoke w3 in
      let (u, e5, h5) =
        carry_on-eq-replied (fail_if (not executable) (about (txt "smoke script not executable"))) _
          w4 h3 in
      let (pid, w6) = host.process_id w4 in
      let (now, w7) = host.seconds w6 in
      let (gateway, w8, e8, h8) = bind-eq-replied (free_port_number host) _ w7 h5 in
      let (db, w9, e9, h9) = bind-eq-replied (free_port_number host) _ w8 h8 in
      let (redis, w10, e10, h10) = bind-eq-replied (free_port_number host) _ w9 h9 in
      let project = project_of pid now gateway db redis in
      let cleaned = with_cleanup-Cleaned project w10 h10 in
      record {
        pid = pid;
        now = now;
        gateway = gateway;
        db = db;
        redis = redis;
        name = txt "coffee-oracle-" ++ (number_text pid ++ (txt "-" ++ number_text now));
        named = refl;
        compose = project.compose;
        composed = refl;
        environment = project.environment;
        set = refl;
        w1 = w4;
        w2 = w6;
        pid_read = refl;
        w3 = w7;
        now_read = refl;
        w4 = w8;
        gateway_free = free_port_number-returned w7 e8;
        w5 = w9;
        db_free = free_port_number-returned w8 e9;
        w6 = w10;
        redis_free = free_port_number-returned w9 e10;
        w7 = cleaned.w1;
        body = cleaned.body;
        passed = λ e.
            run_instances-AllRan project w10 (cleaned.body ∙ ap (λ c. (replied c, cleaned.w1)) e);
        removed = cleaned.down;
      }
