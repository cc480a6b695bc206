-- ===== src/Crawl.antt =====
-- `crawl`, `emplace_file` and `launch_crawlers` of
-- src/impl/autotierfs/TierEngine/components/tiering.cpp: the list of files and the usage of each
-- tier. A directory tree is what `directory_iterator`, `symlink_status` and `lstat` report of a
-- backend while the crawl runs, with full paths.
pub mod Leaves
use autotier.Base.{
  ℕ, suc, ◌+◌, ◌%◌, ◌^◌, Text, codes, Bool, true, false, List, [], ◌∷◌, ◌++◌, if◌then◌else◌,
}
use autotier.Env.{Env, Stat}
use autotier.Tier.{Tier, set_usage}
use autotier.File.{File, make_file}
use autotier.Regex.{Regex, eps, one_of, not_char, seq, star, chars, regex_match}

mutual
  pub data Node : Type 0 where
    directory : Text → Nodes → Node
    symlink : Text → Node
    -- Any other kind of entry.
    other : Text → Stat → Node

  pub data Nodes : Type 0 where
    end : Nodes
    entry : Node → Nodes → Nodes

-- `"\\.[^/]*\\.autotier\\.hide$"`.
abbrev pub temp_file_re : Regex
temp_file_re = chars (codes ".") (seq (star (not_char b'/')) (chars (codes ".autotier.hide") eps))

module _ (E : Env) where
  -- `files_` and the tier's `usage`, an atomic 64-bit number.
  pub record Found : Type 0 where
    pub files : List (File E)
    pub usage : ℕ

  unfoldable pub emplace_file : E.Db → ℕ → Tier → Text → Stat → Found → Found
  emplace_file db j tptr path info s =
      let f = make_file E path info db j tptr in
      record {
        files = if f.metadata.pinned then s.files else s.files ++ (f ∷ []);
        usage = (s.usage + f.size) % 2 ^ 64;
      }

  module _ (db : E.Db) (j : ℕ) (tptr : Tier) where
    unfoldable mutual
      pub crawl_node : Node → Found → Found
      crawl_node (directory path nodes) s = crawl nodes s
      crawl_node (symlink path) s = s
      crawl_node (other path info) s =
          if regex_match path temp_file_re then s else emplace_file db j tptr path info s

      pub crawl : Nodes → Found → Found
      crawl end s = s
      crawl (entry node nodes) s = crawl nodes (crawl_node node s)

  -- The tiers from the `j`-th on, each with the tree of its backend.
  unfoldable pub launch_crawlers :
      E.Db → ℕ → List (Tier × Nodes) → List (File E) → List Tier × List (File E)
  launch_crawlers db j [] files = ([], files)
  launch_crawlers db j ((t, nodes) ∷ rest) files =
      let found = crawl db j t nodes (record { files = files; usage = 0 }) in
      let (tiers, all) = launch_crawlers db (suc j) rest found.files in
      (set_usage found.usage t ∷ tiers, all)
