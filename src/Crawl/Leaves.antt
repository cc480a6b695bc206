-- ===== src/Crawl/Leaves.antt =====
-- The crawl against its specification: the leaves of each tree.
use mathlib.Core.List.{append-nil, append_assoc}
use autotier.Base.{
  ℕ, suc, ◌+◌, ◌%◌, ◌<◌, ◌≡◌, refl, sym, ◌∙◌, Text, true, false, List, [], ◌∷◌, ◌++◌, map, All,
  if◌then◌else◌, arith,
}
use autotier.Env.{Env, Stat}
use autotier.Env.Laws.{word}
use autotier.Tier.{Tier, set_usage}
use autotier.File.{File, make_file}
use autotier.Regex.{elem, regex_match}
use autotier.Regex.Slash.{regex_match-Avoids}
use autotier.Crawl.{
  Node, Nodes, directory, symlink, other, end, entry, temp_file_re, Found, emplace_file, crawl_node,
  crawl, launch_crawlers,
}

-- Everything in a tree that is neither a directory nor a symbolic link, in the order of the walk.
unfoldable mutual
  pub leaves_of : Node → List (Text × Stat)
  leaves_of (directory path nodes) = leaves nodes
  leaves_of (symlink path) = []
  leaves_of (other path info) = (path, info) ∷ []

  pub leaves : Nodes → List (Text × Stat)
  leaves end = []
  leaves (entry node nodes) = leaves_of node ++ leaves nodes

-- A path under a backend's root has a `/` in it.
abbrev pub IsFullPath : Text × Stat → Type 0
IsFullPath leaf = elem b'/' leaf.0 ≡ true

All-append-left {ℓ κ} :
    {A : Type ℓ} (P : A → Type κ) (xs ys : List A) → All P (xs ++ ys) → All P xs × All P ys
All-append-left P [] ys v = (tt, v)
All-append-left P (x ∷ xs) ys v =
    let (left, right) = All-append-left P xs ys v.1 in ((v.0, left), right)

-- The pattern for temporary files matches no path under a backend's root.
pub temp_file_re-never :
    (path : Text) → elem b'/' path ≡ true → regex_match path temp_file_re ≡ false
temp_file_re-never path h = regex_match-Avoids b'/' path temp_file_re (ground arith) h

pub total : List (Text × Stat) → ℕ
total [] = 0
total ((path, info) ∷ rest) = info.st_size + total rest

module _ (E : Env) (db : E.Db) where
  -- The files of a list of leaves that the database does not have as pinned.
  unfoldable pub unpinned : ℕ → Tier → List (Text × Stat) → List (File E)
  unpinned j t [] = []
  unpinned j t ((path, info) ∷ rest) =
      let f = make_file E path info db j t in
      let fs = unpinned j t rest in if f.metadata.pinned then fs else f ∷ fs

  gather : ℕ → Tier → List (Text × Stat) → Found E → Found E
  gather j t [] s = s
  gather j t ((path, info) ∷ rest) s = gather j t rest (emplace_file E db j t path info s)

  gather-append :
      (j : ℕ) (t : Tier) (xs ys : List (Text × Stat)) (s : Found E)
      → gather j t (xs ++ ys) s ≡ gather j t ys (gather j t xs s)
  unfolding gather
  gather-append j t [] ys s = refl
  gather-append j t ((path, info) ∷ xs) ys s = gather-append j t xs ys _

  mutual
    unfolding crawl leaves gather

    crawl_node-gather :
        (j : ℕ) (t : Tier) (node : Node) (s : Found E)
        → All IsFullPath (leaves_of node)
        → crawl_node E db j t node s ≡ gather j t (leaves_of node) s
    crawl_node-gather j t (directory path nodes) s v = crawl-gather j t nodes s v
    crawl_node-gather j t (symlink path) s v = refl
    crawl_node-gather j t (other path info) s v = rw (temp_file_re-never path v.0)

    crawl-gather :
        (j : ℕ) (t : Tier) (nodes : Nodes) (s : Found E)
        → All IsFullPath (leaves nodes)
        → crawl E db j t nodes s ≡ gather j t (leaves nodes) s
    crawl-gather j t end s v = refl
    crawl-gather j t (entry node nodes) s v =
        let (here, later) = All-append-left IsFullPath (leaves_of node) (leaves nodes) v in
        rw (crawl_node-gather j t node s here, crawl-gather j t nodes _ later)
          (sym (gather-append j t (leaves_of node) (leaves nodes) s))

  gather-files :
      (j : ℕ) (t : Tier) (ls : List (Text × Stat)) (s : Found E)
      → (gather j t ls s).files ≡ s.files ++ unpinned j t ls
  unfolding gather unpinned emplace_file
  gather-files j t [] s = sym (append-nil s.files)
  gather-files j t ((path, info) ∷ rest) s =
      gather-files j t rest _
      ∙ ground (arith, append_assoc s.files (make_file E path info db j t ∷ []) (unpinned j t rest))

  gather-usage :
      (j : ℕ) (t : Tier) (ls : List (Text × Stat)) (s : Found E)
      → s.usage < word
      → (gather j t ls s).usage ≡ (s.usage + total ls) % word
  unfolding gather total emplace_file make_file
  gather-usage j t [] s h = omega arith
  gather-usage j t ((path, info) ∷ rest) s h =
      gather-usage j t rest (emplace_file E db j t path info s) (omega arith) ∙ omega arith

  -- What the crawl is for: a usage for each tier, and the files that may be moved.
  abbrev pub measured : Tier × Nodes → Tier
  measured (t, nodes) = set_usage (total (leaves nodes) % word) t

  unfoldable pub movable : ℕ → List (Tier × Nodes) → List (File E)
  movable j [] = []
  movable j ((t, nodes) ∷ rest) = unpinned j t (leaves nodes) ++ movable (suc j) rest

  -- Where every path has a `/` in it, the crawl sets each tier's usage to the sum of the sizes of
  -- all leaves of its tree, pinned or not, as a 64-bit word, and appends to the list of files
  -- exactly the leaves that are not pinned, tier by tier in the order of the walk. Files named as
  -- temporary copies are among them.
  pub launch_crawlers-leaves :
      (j : ℕ) (backends : List (Tier × Nodes)) (files : List (File E))
      → All (λ b. All IsFullPath (leaves b.1)) backends
      → launch_crawlers E db j backends files ≡ (map measured backends, files ++ movable j backends)
  unfolding launch_crawlers movable
  launch_crawlers-leaves j [] files v = rw (append-nil files)
  launch_crawlers-leaves j ((t, nodes) ∷ rest) files v =
      rw (crawl-gather j t nodes (record { files = files; usage = 0 }) v.0) (
        rw (launch_crawlers-leaves (suc j) rest _ v.1) (
          rw (
            gather-files j t (leaves nodes) (record { files = files; usage = 0 }),
            gather-usage j t (leaves nodes) (record { files = files; usage = 0 }) (omega arith),
            append_assoc files (unpinned j t (leaves nodes)) (movable (suc j) rest),
            sum,
          )))
    where
      sum : 0 + total (leaves nodes) ≡ total (leaves nodes)
      sum = omega arith
