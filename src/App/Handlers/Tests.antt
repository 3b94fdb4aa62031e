-- ===== src/App/Handlers/Tests.antt =====
-- The theorems on the handlers, at concrete inputs: a small world with one session, one file and one
-- share of it.
use c_cloud_storage.Prelude.{
  ℕ, ◌+◌, ◌≡◌, refl, ◌⊎◌, true, false, ◌||◌, none, some, List, [], ◌∷◌, ◌++◌, ◌==◌, length,
  if◌then◌else◌, Bytes, bytes, starts_with, arith, min,
}
use c_cloud_storage.Prelude.Number.{pos, decimal_ℤ}
use c_cloud_storage.Http.Request
use c_cloud_storage.Http.Request.{
  HttpRequest, HttpMethod, get, head, add_header, get_header, get_path_param, get_query_value,
}
use c_cloud_storage.Http.Response
use c_cloud_storage.App.World.{World, Row, null}
use c_cloud_storage.App.Database.{Db, c_str, escape}
use c_cloud_storage.App.Database.Outline.{outline, outside, in_text, EscapesTexts, SameOutline}
use c_cloud_storage.App.Database.Injection.{lookups-SameOutline, search_sql_lem}
use c_cloud_storage.App.Database.Files.{file_by_name_sql, owned_file_sql}
use c_cloud_storage.App.Database.Shares.{get_by_code_sql}
use c_cloud_storage.App.Database.Sessions.{session_sql, end_session_sql}
use c_cloud_storage.App.Database.Users.{search_sql}
use c_cloud_storage.App.Database.Shares.{ShareRecord}
use c_cloud_storage.App.Database.Sessions.{validate_session}
use c_cloud_storage.App.Filenames
use c_cloud_storage.App.Exchange.{Exchange}
use c_cloud_storage.App.Download.{FileDownContext}
use c_cloud_storage.App.Handlers.Login.{user_sql, login_sql, handle_login}
use c_cloud_storage.App.Handlers.Access.{User, session_id_of, handle_download}
use c_cloud_storage.App.Handlers.Access.Allowed.{MayFetch, handle_download-MayFetch}
use c_cloud_storage.App.Handlers.ShareAccess.{handle_share_download}
use c_cloud_storage.App.Handlers.ShareAccess.Allowed.{
  SharePermits, handle_share_download-SharePermits,
}
use c_cloud_storage.App.Handlers.Delete.{handle_delete}
use c_cloud_storage.App.Handlers.Share.{handle_share_file}
use c_cloud_storage.App.Handlers.Guards.{
  Unchanged, OwnsFile, SharesOwn, HasAccount, handle_delete-Unchanged, handle_share_file-Unchanged,
  handle_login-Unchanged,
}

abbrev pub share_code : Bytes
share_code = bytes "0123456789abcdef0123456789abcdef"

abbrev pub no_names : Filenames.Json
no_names = record { dump = λ m. some []; parse = λ s. none }

-- The escapes of the quote, the backslash and the zero.
unfoldable pub escaped : Bytes → Bytes
escaped [] = []
escaped (c ∷ s) =
    if c == 0
    then 92 ∷ (b'0' ∷ escaped s)
    else if c == b'\'' || c == 92
    then 92 ∷ (c ∷ escaped s)
    else c ∷ escaped s

escaped-stays : (s t : Bytes) → outline in_text (escaped s ++ t) ≡ outline in_text t
unfolding escaped outline
escaped-stays [] t = refl
escaped-stays (c ∷ s) t = ground (arith, escaped-stays s t)

escaped-c_str : (s t : Bytes) → c_str (escaped s ++ t) ≡ escaped s ++ c_str t
unfolding escaped c_str
escaped-c_str [] t = refl
escaped-c_str (c ∷ s) t = ground (arith, escaped-c_str s t)

abbrev pub session_row : Row
session_row = some (bytes "7") ∷ (some (bytes "ann") ∷ [])

abbrev pub file_row : Row
file_row = some (bytes "1") ∷ (some (bytes "f") ∷ (some (bytes "a.txt") ∷ (some (bytes "7") ∷ [])))

abbrev pub share_row : Row
share_row =
    some (bytes "1")
    ∷ (some (bytes "1")
        ∷ (some (bytes "7")
            ∷ (none
                ∷ (some (bytes "public")
                    ∷ (none
                        ∷ (none
                            ∷ (none
                                ∷ (none ∷ (some (bytes "f") ∷ (some (bytes "a.txt") ∷ []))))))))))

abbrev pub rows_for : Bytes → List Row
rows_for sql =
    if starts_with (bytes "SELECT user_id") sql
    then session_row ∷ []
    else if starts_with (bytes "SELECT id, filename, o") sql
    then file_row ∷ []
    else if starts_with (bytes "SELECT fs.id") sql
    then share_row ∷ []
    else []

-- The state is the number of statements that have changed something.
abbrev pub small : World ℕ
small = record {
  mysql_init = λ w. true;
  mysql_real_connect = λ c w. true;
  mysql_set_character_set = λ s w. true;
  mysql_select = λ sql w. some (rows_for sql);
  mysql_change = λ sql w. some (w + 1);
  mysql_real_escape_string = escaped;
  mysql_insert_id = λ w. w;
  dump = λ j. some [];
  parse = λ s. some null;
  exists = λ p w. true;
  is_regular_file = λ p w. true;
  file_size = λ p w. 5;
  access = λ p w. true;
  read_file = λ p w. some (bytes "hello");
  open_file = λ p w. some w;
  close_file = λ p s w. w;
  unlink = λ p w. some w;
  now_ms = λ w. 0;
  draw = λ n w. (min n w, w + 1);
  hash = λ s. length s;
  regex_group = λ p s. none;
  scan_hex = λ s. none;
  junk = 0;
}

abbrev pub db : Db ℕ
db = record {
  connected = true;
  credentials = record { host = []; user = []; password = []; dbname = []; port = 3306 };
  outside = 0;
}

small-EscapesTexts : EscapesTexts small
small-EscapesTexts = record { stays_in_text = escaped-stays; no_zero = escaped-c_str }

lookups-SameOutline_example :
    SameOutline
      (get_by_code_sql small db (bytes "x' OR '1'='1"))
      (get_by_code_sql small db (bytes "abc"))
    × SameOutline (session_sql small db (bytes "x' OR '1'='1")) (session_sql small db (bytes "abc"))
    × SameOutline
        (end_session_sql small db (bytes "x' OR '1'='1"))
        (end_session_sql small db (bytes "abc"))
    × SameOutline
        (file_by_name_sql small db (bytes "x' OR '1'='1"))
        (file_by_name_sql small db (bytes "abc"))
    × SameOutline
        (owned_file_sql small db (bytes "x' OR '1'='1") (pos 7))
        (owned_file_sql small db (bytes "abc") (pos 7))
    × SameOutline (user_sql small db (bytes "x' OR '1'='1")) (user_sql small db (bytes "abc"))
    × SameOutline
        (login_sql small db (bytes "x' OR '1'='1") (bytes "p"))
        (login_sql small db (bytes "abc") (bytes "q"))
lookups-SameOutline_example =
    lookups-SameOutline small db (bytes "x' OR '1'='1") (bytes "abc") (bytes "p") (bytes "q")
      (pos 7) small-EscapesTexts refl

search_sql_lem_example :
    outline outside (search_sql small db (bytes " OR 1=1 -- ") (pos 7) (pos 10))
    ≡ bytes "SELECT id, username, email, password FROM users WHERE username LIKE ''% OR 1=1 -- %"
      ++ (b'\'' ∷ [])
unfolding escaped outline escape decimal_ℤ
search_sql_lem_example = search_sql_lem small db (bytes " OR 1=1 -- ") (pos 7) (pos 10) refl refl

abbrev pub ask : HttpMethod → HttpRequest
ask method = record Request.create {
  method = method;
  url = bytes "/download/f";
  headers = (bytes "X-Session-ID", bytes "s") ∷ [];
  path_params = (bytes "filename", bytes "f") ∷ [];
  query_params_multi = (bytes "code", share_code ∷ []) ∷ [];
}

abbrev pub exchange : HttpRequest → Exchange ℕ
exchange req = record {
  request = req;
  response = Response.create false;
  link = some (record { completed = true; attachment = none });
  on_write_complete = none;
  db = db;
  filenames = Filenames.create none;
}

-- A request for the file by its owner, and one by its share.
abbrev pub own_file : Exchange ℕ
own_file = exchange (record (ask get) { query_params_multi = [] })

abbrev shared_file : Exchange ℕ
shared_file = exchange (record (ask get) { headers = [] })

abbrev pub nobody : Exchange ℕ
nobody = exchange (record (ask get) { headers = [] })

-- The download that is open on a file at its start.
abbrev opened : Bytes → FileDownContext
opened original = record {
  original_filename = original;
  is_open = true;
  contents = bytes "hello";
  get = 0;
  good = true;
  file_size = 5;
  current_position = 0;
  is_complete = false;
}

handle_download-MayFetch_example :
    (user : User) × (server : Bytes) × (validate_session small
        (session_id_of own_file.request)
        own_file.db
      ≡ some user)
    × MayFetch small user own_file.request own_file.db server
    × (small.read_file (bytes "uploads" ++ (b'/' ∷ server)) own_file.db.outside
        ≡ some (bytes "hello"))
unfolding handle_download validate_session
handle_download-MayFetch_example =
    handle_download-MayFetch small (bytes "uploads") own_file (opened (bytes "a.txt")) refl refl

handle_share_download-SharePermits_example :
    (length (get_query_value (bytes "code") shared_file.request) ≡ 32)
    × (user : User) × (share : ShareRecord) × SharePermits small shared_file user share
    × (small.read_file (bytes "uploads" ++ (b'/' ∷ share.server_filename)) shared_file.db.outside
        ≡ some (bytes "hello"))
unfolding handle_share_download
handle_share_download-SharePermits_example =
    handle_share_download-SharePermits small (bytes "uploads") shared_file (opened (bytes "a.txt"))
      refl refl

handle_delete-Unchanged_example :
    Unchanged own_file (handle_delete small no_names (bytes "uploads") own_file)
    ⊎ OwnsFile small own_file
handle_delete-Unchanged_example = handle_delete-Unchanged small no_names (bytes "uploads") own_file

handle_share_file-Unchanged_example :
    Unchanged own_file (handle_share_file small own_file) ⊎ SharesOwn small own_file
handle_share_file-Unchanged_example = handle_share_file-Unchanged small own_file

handle_login-Unchanged_example :
    Unchanged nobody (handle_login small (bytes "x") nobody) ⊎ HasAccount small nobody
handle_login-Unchanged_example = handle_login-Unchanged small (bytes "x") nobody
