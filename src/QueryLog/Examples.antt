-- ===== src/QueryLog/Examples.antt =====
-- Concrete logs.
use faro.Prelude.{nat_eq, ◌≡◌, refl, true, false, List, [], ◌∷◌, ◌++◌, none, some}
use faro.Strings.{Bytes, bytes_beq, codes}
use faro.QueryLog.{Store, Io, Reader, read_open_file, start_reader}
use faro.QueryLog.Lines.{joined}
use faro.QueryLog.Entries.{LineParsers, parse_line}
use faro.QueryLog.Once.{IsOnce, read_open_file-IsOnce}

abbrev io0 : Io Bytes
io0 = record {
  identity = codes "id";
  parse = λ l. some l;
  insert_ok = λ n. true;
  cancelled = λ n. false;
}

abbrev empty0 : Store Bytes
empty0 = record { rows = []; checkpoint = none }

abbrev log0 : List Bytes
log0 = codes "a" ∷ codes "bc" ∷ []

read_open_file-IsOnce_example :
    IsOnce io0 0 empty0 log0 (read_open_file io0 0 (joined log0 ++ codes "d") empty0)
read_open_file-IsOnce_example =
    read_open_file-IsOnce io0 0 empty0 log0 (codes "d") (refl, (refl, tt)) refl

abbrev first0 : Reader Bytes
first0 = record (start_reader 0 empty0) {
  committed = 2;
  store = record { rows = codes "a\n" ∷ []; checkpoint = some (codes "id", 2) };
}

abbrev second0 : Reader Bytes
second0 = record (start_reader 0 empty0) {
  committed = 5;
  store = record { rows = codes "a\n" ∷ codes "bc\n" ∷ []; checkpoint = some (codes "id", 5) };
}

abbrev parsers0 : LineParsers
parsers0 = record {
  parse_duration = λ s. some 1500;
  split_host_port = λ s. some (codes "127.0.0.1", codes "5053");
  is_loopback = λ s. true;
  parse_old_line = λ s. none;
}

-- A line that CoreDNS writes for a query that went through the encrypted gateway.
parse_line0 :
    parse_line parsers0
      (codes "[INFO] FARO|[fd00::7]|aaaa|Example.COM.|noerror|1.5ms|udp://127.0.0.1:5053")
    ≡ some (record {
      client_ip = codes "fd00::7";
      query_type = codes "AAAA";
      domain = codes "example.com";
      rcode = codes "NOERROR";
      latency = 1500;
      upstream = codes "doh";
      observed = true;
    })
unfolding parse_line bytes_beq
parse_line0 = refl
