-- ===== src/Generator/Paths.antt =====
-- The path that the generator emits for a type leads to the type.
use mathlib.Core.List.{append_assoc, append-nil}
use mathlib.Core.Path.{subst₂}
use grpc_gateway_rust.Prelude.{
  ℕ, zero, suc, ◌+◌, ◌-◌, ◌<◌, ◌≡◌, ◌≢◌, refl, sym, ap, ap₂, map, true, false, ◌∙◌, subst, inl, inr,
  not, none, List, [], ◌∷◌, ◌++◌, Str, All, Lacks, length, length-append, length-drop, drop, filter,
  any, is_empty, str_eq, str_eq_iff, starts_with, split, split-join, join, trim_start_matches,
  Bool-cases, Attempt, arith,
}
use grpc_gateway_rust.Generator.{
  is_identifier, never_raw, Ident, plain, raw, Token, super_keyword, colons, word, GeneratorOptions,
  keywords, safe_ident, find_extern, parts_of, common_prefix_len, push_supers, join_idents,
  relative_path, resolve_local, resolve_relative_type,
}

-- The name that an identifier has in a path.
pub data Names : Ident → Str → Type 0 where
  plainly : {name : Str} → Names (plain name) name
  rawly : {name : Str} → Names (raw name) name

-- The names of a Rust path, from a module: each enters what the one before leads to.
pub data Enters : List Str → List Token → List Str → Type 0 where
  arrives :
      {m : List Str} {i : Ident} {name : Str}
      → Names i name
      → Enters m (word i ∷ []) (m ++ (name ∷ []))
  through :
      {m p : List Str} {ts : List Token} {i : Ident} {name : Str}
      → Names i name
      → Enters (m ++ (name ∷ [])) ts p
      → Enters m (word i ∷ colons ∷ ts) p

-- A relative path may begin with `super`, which goes from a module to the one around it.
pub data Resolves : List Str → List Token → List Str → Type 0 where
  down : {m p : List Str} {ts : List Token} → Enters m ts p → Resolves m ts p
  up :
      {m p : List Str} {ts : List Token} (name : Str)
      → Resolves m ts p
      → Resolves (m ++ (name ∷ [])) (super_keyword ∷ colons ∷ ts) p

-- A name of which proc_macro2 makes an identifier.
abbrev pub CanStand : Str → Type 0
CanStand name = (is_identifier name ≡ true) × (any (str_eq name) never_raw ≡ false)

safe_ident-Names : (name : Str) → CanStand name → Names (safe_ident name) name
unfolding safe_ident
safe_ident-Names name (legal, usable) = elim (Bool-cases (any (str_eq name) keywords)) [
  | inl keyword ↦ rw (keyword, usable, safe_ident) rawly
  | inr other ↦ rw (other, legal, safe_ident) plainly
]

join_idents-Enters :
    (m : List Str) (q : Str) (qs : List Str)
    → All CanStand (q ∷ qs)
    → Enters m (join_idents (q ∷ qs)) (m ++ (q ∷ qs))
unfolding join_idents
join_idents-Enters m q [] (stands, _) = arrives (safe_ident-Names q stands)
join_idents-Enters m q (r ∷ qs) (stands, later) =
    let inner : Enters (m ++ (q ∷ [])) (join_idents (r ∷ qs)) (m ++ (q ∷ r ∷ qs)) =
      rw (← append_assoc m (q ∷ []) (r ∷ qs)) (join_idents-Enters (m ++ (q ∷ [])) r qs later) in
    through (safe_ident-Names q stands) inner

push_supers_inside :
    (n : ℕ) (ts : List Token)
    → push_supers n (super_keyword ∷ colons ∷ ts) ≡ super_keyword ∷ colons ∷ push_supers n ts
unfolding push_supers
push_supers_inside zero ts = refl
push_supers_inside (suc n) ts = ap (λ us. super_keyword ∷ colons ∷ us) (push_supers_inside n ts)

push_supers-Resolves :
    {m p : List Str} {ts : List Token} (extra : List Str)
    → Resolves m ts p
    → Resolves (m ++ extra) (push_supers (length extra) ts) p
unfolding push_supers
push_supers-Resolves {m} [] h = rw (append-nil m) h
push_supers-Resolves {m} {p} {ts} (x ∷ extra) h =
    subst₂ (λ a us. Resolves a us p) (append_assoc m (x ∷ []) extra)
      (push_supers_inside (length extra) ts) (push_supers-Resolves extra (up x h))

-- What two paths share, and what is left of the first.
common_prefix_len_lem :
    (ms ts : List Str)
    → (shared rest : List Str) × (ms ≡ shared ++ rest)
      × (ts ≡ shared ++ drop (common_prefix_len ms ts) ts)
      × (length ms - common_prefix_len ms ts ≡ length rest)
unfolding common_prefix_len
common_prefix_len_lem [] ts = ([], [], refl, refl, refl)
common_prefix_len_lem (m ∷ ms) [] = ([], m ∷ ms, refl, refl, omega arith)
common_prefix_len_lem (m ∷ ms) (t ∷ ts) = elim (Bool-cases (str_eq m t)) [
  | inl same ↦
      let (shared, rest, e, f, g) = common_prefix_len_lem ms ts in
      rw same
        (m ∷ shared, rest, ap (λ s. m ∷ s) e, cc ((str_eq_iff m t).0 same, f), omega (arith, g))
  | inr other ↦ rw other ([], m ∷ ms, refl, refl, omega arith)
]

-- The type is below a package that the module's package shares with it, and not that package.
relative_path-Resolves :
    (ms ts : List Str) (g : Str)
    → common_prefix_len ms ts < length ts
    → All CanStand (drop (common_prefix_len ms ts) ts)
    → Resolves (ms ++ (g ∷ [])) (relative_path ms ts) ts
unfolding relative_path
relative_path-Resolves ms ts g h stand =
    let (shared, rest, e, f, n) = common_prefix_len_lem ms ts in
    along shared rest (drop (common_prefix_len ms ts) ts) e f n
      (omega (arith, h, length-drop (common_prefix_len ms ts) ts)) stand
  where
    along :
        (shared rest below : List Str)
        → ms ≡ shared ++ rest
        → ts ≡ shared ++ below
        → length ms - common_prefix_len ms ts ≡ length rest
        → 0 < length below
        → All CanStand below
        → Resolves
            (ms ++ (g ∷ []))
            (push_supers (length ms - common_prefix_len ms ts + 1) (join_idents below))
            ts
    along shared rest [] e f n more stands = absurd (omega (arith, more))
    along shared rest (q ∷ qs) e f n more stands =
        let count : length (rest ++ (g ∷ [])) ≡ length ms - common_prefix_len ms ts + 1 =
          omega (arith, n, length-append rest (g ∷ [])) in
        let place : shared ++ (rest ++ (g ∷ [])) ≡ ms ++ (g ∷ []) =
          sym (append_assoc shared rest (g ∷ [])) ∙ ap (λ s. s ++ (g ∷ [])) (sym e) in
        subst (λ k. Resolves (ms ++ (g ∷ [])) (push_supers k (join_idents (q ∷ qs))) ts) count
          (subst₂
            (λ a b. Resolves a (push_supers (length (rest ++ (g ∷ []))) (join_idents (q ∷ qs))) b)
            place (sym f)
            (push_supers-Resolves (rest ++ (g ∷ []))
              (down (join_idents-Enters shared q qs stands))))

-- A name of a package or a type: neither empty nor dotted.
abbrev pub IsName : Str → Type 0
IsName p = (p ≢ []) × Lacks b'.' p

filter-IsName : (ps : List Str) → All IsName ps → filter (λ p. not (is_empty p)) ps ≡ ps
unfolding filter
filter-IsName [] h = refl
filter-IsName ([] ∷ ps) ((ne, _), h) = absurd (ne refl)
filter-IsName ((x ∷ p) ∷ ps) (_, h) = ap (λ qs. (x ∷ p) ∷ qs) (filter-IsName ps h)

All-Lacks : (ps : List Str) → All IsName ps → All (Lacks b'.') ps
All-Lacks [] h = tt
All-Lacks (p ∷ ps) ((_, h), hs) = (h, All-Lacks ps hs)

parts_of-join : (ps : List Str) → All IsName ps → parts_of (join b'.' ps) ≡ ps
unfolding parts_of join split filter
parts_of-join [] h = refl
parts_of-join (p ∷ ps) h =
    rw (split-join b'.' p ps (All-Lacks (p ∷ ps) h), parts_of) (filter-IsName (p ∷ ps) h)

trim_start_matches-join :
    (p : Str) (ps : List Str)
    → IsName p
    → trim_start_matches b'.' (b'.' ∷ join b'.' (p ∷ ps)) ≡ join b'.' (p ∷ ps)
unfolding trim_start_matches join
trim_start_matches-join [] ps (ne, _) = absurd (ne refl)
trim_start_matches-join (x ∷ p) [] (_, (n, _)) = rw (n, trim_start_matches)
trim_start_matches-join (x ∷ p) (q ∷ ps) (_, (n, _)) = rw (n, trim_start_matches)

-- The parts of an absolute name, from the parts of the package.
resolve_relative_type-parts :
    (parse_path : Str → Attempt Str (List Token)) (options : GeneratorOptions)
    (current ts : List Str) (service : Str)
    → All IsName current
    → All IsName ts
    → find_extern (b'.' ∷ join b'.' ts) options.extern_paths ≡ none
    → common_prefix_len current ts < length ts
    → All CanStand (drop (common_prefix_len current ts) ts)
    → Resolves
        (current ++ (service ∷ []))
        (resolve_relative_type parse_path (b'.' ∷ join b'.' ts) (join b'.' current) options)
        ts
unfolding resolve_relative_type resolve_local starts_with
resolve_relative_type-parts parse_path options current [] service h k e n stand =
    absurd (omega (arith, n))
resolve_relative_type-parts parse_path options current (p ∷ ps) service h (k, ks) e n stand =
    rw
      (
        resolve_relative_type,
        e,
        resolve_local,
        trim_start_matches-join p ps k,
        parts_of-join current h,
        parts_of-join (p ∷ ps) (k, ks),
      )
      (relative_path-Resolves current (p ∷ ps) service n stand)

map-kept : (f : Str → Str) (qs : List Str) → All (λ q. f q ≡ q) qs → map f qs ≡ qs
map-kept f [] h = refl
map-kept f (q ∷ qs) (e, es) = ap₂ (λ r rs. r ∷ rs) e (map-kept f qs es)

-- What prost documents of its modules: one per part of a package, and one per message around another.
-- The names are those that it makes of theirs.
module _ (module_name type_name : Str → Str) where
  abbrev pub prost_module : List Str → List Str
  prost_module parts = map module_name parts

  abbrev pub prost_path : List Str → List Str → Str → List Str
  prost_path home outer name = prost_module (home ++ outer) ++ (type_name name ∷ [])

  abbrev pub full_parts : List Str → List Str → Str → List Str
  full_parts home outer name = (home ++ outer) ++ (name ∷ [])

  -- For a type `name` of a package, inside the messages `outer` or at the top level, the path that is
  -- emitted into the module of a service inside that of its package leads to where prost has the type:
  -- if prost keeps the names of both packages, of the messages around the type and of the type (a
  -- message around it is a module in snake case, so that its name has to be in snake case too), if
  -- proc_macro2 makes an identifier of every part that the path has, so none is `self`, `Self`,
  -- `super` or `crate`, if no extern path is above the type, and if the type is not itself a package
  -- around that of the service.
  pub resolve_relative_type-Resolves :
      (parse_path : Str → Attempt Str (List Token)) (options : GeneratorOptions)
      (current home outer : List Str) (name service : Str)
      → All IsName current
      → All IsName (full_parts home outer name)
      → find_extern (b'.' ∷ join b'.' (full_parts home outer name)) options.extern_paths ≡ none
      → common_prefix_len current (full_parts home outer name) < length (full_parts home outer name)
      → All CanStand (
          drop
            (common_prefix_len current (full_parts home outer name))
            (full_parts home outer name))
      → All (λ q. module_name q ≡ q) current
      → All (λ q. module_name q ≡ q) (home ++ outer)
      → type_name name ≡ name
      → Resolves
          (prost_module current ++ (service ∷ []))
          (resolve_relative_type parse_path
            (b'.' ∷ join b'.' (full_parts home outer name))
            (join b'.' current)
            options)
          (prost_path home outer name)
  resolve_relative_type-Resolves parse_path options current home outer name service h k e n stand
        here around kept =
      rw (map-kept module_name current here, map-kept module_name (home ++ outer) around, kept)
        (resolve_relative_type-parts parse_path options current (full_parts home outer name) service
          h k e n stand)
