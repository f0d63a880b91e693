-- ===== src/Config/Coherence.antt =====
-- A cached read is an uncached read, whatever reads, writes and changes of path came before.
use wisetraceloom.Prelude.{
  Option, Text, List, ◌≡◌, some, ◌∷◌, [], arith, text_eq_iff, option_eq_iff, text_Eq, Option-cases,
  inl, inr,
}
use wisetraceloom.Sql.{Sql}
use wisetraceloom.Config.{Rows, Option, Text, List, some, ◌∷◌, []}
use wisetraceloom.Config.Cache.{Process, cached, get_cached, set_cached, set_db_path}

module _ {V C : Type 0} (sql : Sql) (load : Rows (Option Text) V → Option Text → C) where
  -- Every kept value is what its database gives now.
  pub record IsCoherent (process : Process V C) : Type 0 where
    pub kept :
        (path : Text) (tenant : Option Text) (c : C)
        → cached path tenant process.cache ≡ some c
        → c ≡ load (process.stores path) tenant

  -- What the process can do with the configuration.
  pub data Request : Type 0 where
    read : Option Text → Request
    write : Option Text → V → Request
    move : Text → Request

  unfoldable pub serve : Request → Process V C → Process V C
  serve (read tenant) process = (get_cached load tenant process).1
  serve (write tenant v) process = set_cached sql tenant v process
  serve (move path) process = set_db_path path process

  unfoldable pub serve_all : List Request → Process V C → Process V C
  unfolding serve
  serve_all [] process = process
  serve_all (request ∷ requests) process = serve_all requests (serve request process)

  serve-IsCoherent :
      (request : Request) (process : Process V C)
      → IsCoherent process
      → IsCoherent (serve request process)
  unfolding serve get_cached set_cached set_db_path cached
  serve-IsCoherent (read tenant) process h = record { kept = λ path t c e. read-kept path t c e }
    where
      read-kept :
          (path : Text) (t : Option Text) (c : C)
          → cached path t (get_cached load tenant process).1.cache ≡ some c
          → c ≡ load ((get_cached load tenant process).1.stores path) t
      read-kept path t c e =
          ground (arith, h.kept path t c, text_eq_iff process.db_path path, option_eq_iff tenant t)
  serve-IsCoherent (write tenant v) process h = record { kept = λ path t c e. cc e }
  serve-IsCoherent (move path) process h = record { kept = h.kept }

  serve_all-IsCoherent :
      (requests : List Request) (process : Process V C)
      → IsCoherent process
      → IsCoherent (serve_all requests process)
  unfolding serve_all
  serve_all-IsCoherent [] process h = h
  serve_all-IsCoherent (request ∷ requests) process h =
      serve_all-IsCoherent requests (serve request process) (serve-IsCoherent request process h)

  pub read_coherent :
      (process : Process V C) (tenant : Option Text)
      → IsCoherent process
      → (get_cached load tenant process).0 ≡ load (process.stores process.db_path) tenant
  unfolding get_cached
  read_coherent process tenant h =
      elim (Option-cases (cached process.db_path tenant process.cache)) [
        | inl n ↦ ground (arith, n)
        | inr (c, e) ↦ ground (arith, e, h.kept process.db_path tenant c e)
      ]

  pub IsCoherent-empty : (process : Process V C) → process.cache ≡ [] → IsCoherent process
  unfolding cached
  IsCoherent-empty process e = record { kept = λ path t c f. absurd (ground (arith, e, f)) }

  -- After any sequence of cached reads, writes and changes of the database path from an empty
  -- cache, a cached read returns what an uncached read of the current database gives.
  pub get_cached-eq-load :
      (requests : List Request) (process : Process V C) (tenant : Option Text)
      → process.cache ≡ []
      → (get_cached load tenant (serve_all requests process)).0
        ≡ load ((serve_all requests process).stores (serve_all requests process).db_path) tenant
  get_cached-eq-load requests process tenant e =
      read_coherent (serve_all requests process) tenant
        (serve_all-IsCoherent requests process (IsCoherent-empty process e))

module _ {V C : Type 0} (load : Rows (Option Text) V → Option Text → C) where
  -- A read leaves the database path in force.
  pub db_path-get_cached :
      (tenant : Option Text) (process : Process V C)
      → (get_cached load tenant process).1.db_path ≡ process.db_path
  unfolding get_cached
  db_path-get_cached tenant process = ground arith
