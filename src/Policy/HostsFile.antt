-- ===== src/Policy/HostsFile.antt =====
-- How CoreDNS reads a hosts file: lines of an address and a name. It is the measure of the files that
-- internal/coredns/coredns.go writes.
use faro.Prelude.{
  nat_eq, ℕ, ◌≤◌, ◌≡◌, refl, sym, ap, ◌∙◌, Bool, false, ◌&&◌, List, [], ◌∷◌, ◌++◌, ◌==◌, arith, All,
  length, append_nil, append_assoc,
}
use faro.Strings.{
  Bytes, bytes_eq, bytes_beq, codes, is_space, split, split_from, fields, fields_from, drop_empty,
  contains_string,
}
use faro.Domains.{is_label_byte}
use faro.Domains.Safety.{IsDomainByte}
use faro.Policy.{any_row}
use faro.Policy.Hosts.{block_lines, hosts_header}

-- One line blocks a name.
unfoldable pub fields_block : Bytes → List Bytes → Bool
fields_block name (address ∷ host ∷ []) = address == codes "0.0.0.0" && host == name
fields_block name _ = false

unfoldable pub line_blocks : Bytes → Bytes → Bool
unfolding fields fields_block
line_blocks name line = fields_block name (fields line)

-- The file maps a name to 0.0.0.0.
unfoldable pub file_blocks : Bytes → Bytes → Bool
unfolding any_row split line_blocks
file_blocks file name = any_row (line_blocks name) (split 10 file)

abbrev pub IsName : Bytes → Type 0
IsName domain = (1 ≤ length domain) × All IsDomainByte domain

not_newline : (c : ℕ) → IsDomainByte c → (c == 10) ≡ false
unfolding is_label_byte
not_newline c h = ground arith

not_space : (c : ℕ) → IsDomainByte c → is_space c ≡ false
unfolding is_label_byte is_space
not_space c h = ground arith

split_from-line :
    (cur s rest : Bytes)
    → All IsDomainByte s
    → split_from 10 cur (s ++ 10 ∷ rest) ≡ (cur ++ s) ∷ split_from 10 [] rest
unfolding split_from
split_from-line cur [] rest h = ap (λ t. t ∷ split_from 10 [] rest) (sym (append_nil cur))
split_from-line cur (c ∷ s) rest h = ground (
  arith,
  not_newline c h.0,
  split_from-line (cur ++ c ∷ []) s rest h.1,
  append_assoc cur (c ∷ []) s,
)

fields_from-name :
    (c : ℕ) (cur s : Bytes) → All IsDomainByte s → fields_from (c ∷ cur) s ≡ (c ∷ (cur ++ s)) ∷ []
unfolding fields_from
fields_from-name c cur [] h = ap (λ t. (c ∷ t) ∷ []) (sym (append_nil cur))
fields_from-name c cur (d ∷ s) h =
    ground (
      arith,
      not_space d h.0,
      append_assoc cur (d ∷ []) s,
      fields_from-name c (cur ++ d ∷ []) s h.1,
    )

fields-block_line :
    (s : Bytes) → IsName s → fields (codes "0.0.0.0 " ++ s) ≡ codes "0.0.0.0" ∷ s ∷ []
unfolding fields fields_from
fields-block_line [] h = absurd (ground arith)
fields-block_line (c ∷ s) h =
    let name : fields_from [] (c ∷ s) ≡ (c ∷ s) ∷ [] =
      ground (arith, not_space c h.1.0, fields_from-name c [] s h.1.1) in
    ap (λ l. codes "0.0.0.0" ∷ drop_empty l) name

block_line-blocks :
    (name s : Bytes) → IsName s → line_blocks name (codes "0.0.0.0 " ++ s) ≡ (s == name)
unfolding fields_block line_blocks bytes_beq
block_line-blocks name s h = ap (fields_block name) (fields-block_line s h)

block_lines-blocks :
    (name : Bytes) (l : List Bytes)
    → All IsName l
    → any_row (line_blocks name) (split_from 10 [] (block_lines l)) ≡ contains_string name l
unfolding contains_string any_row split_from fields_block line_blocks fields fields_from
block_lines-blocks name [] h = refl
block_lines-blocks name (s ∷ l) h =
    let first : split_from 10 [] (block_lines (s ∷ l))
        ≡ (codes "0.0.0.0 " ++ s) ∷ split_from 10 [] (block_lines l) =
      split_from-line (codes "0.0.0.0 ") s (block_lines l) h.0.1 in
    ap (any_row (line_blocks name)) first
    ∙ ground (arith, block_line-blocks name s h.0, block_lines-blocks name l h.1)

-- A file of blocks blocks the domains that it was written from.
pub file_blocks_lem :
    (name : Bytes) (l : List Bytes)
    → All IsName l
    → file_blocks (hosts_header ++ block_lines l) name ≡ contains_string name l
unfolding file_blocks split split_from any_row line_blocks fields fields_from is_space fields_block
file_blocks_lem name l h = block_lines-blocks name l h

pub file_blocks_nil : (name : Bytes) → file_blocks [] name ≡ false
unfolding file_blocks split split_from any_row line_blocks fields fields_from fields_block
file_blocks_nil name = refl
