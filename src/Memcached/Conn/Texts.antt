-- ===== src/Memcached/Conn/Texts.antt =====
-- The texts of src/handler/memcached.c, as bytes.
use zeroserv.Prelude.{ℕ, List, [], ◌∷◌}

-- "\r\n"
abbrev pub crlf : List ℕ
crlf = 13 ∷ 10 ∷ []

-- "VALUE "
abbrev pub value_text : List ℕ
value_text = 86 ∷ 65 ∷ 76 ∷ 85 ∷ 69 ∷ 32 ∷ []

-- "END\r\n"
abbrev pub end_text : List ℕ
end_text = 69 ∷ 78 ∷ 68 ∷ 13 ∷ 10 ∷ []

-- "get"
abbrev pub get_text : List ℕ
get_text = 103 ∷ 101 ∷ 116 ∷ []

-- "bget"
abbrev pub bget_text : List ℕ
bget_text = 98 ∷ 103 ∷ 101 ∷ 116 ∷ []

-- "add"
abbrev pub add_text : List ℕ
add_text = 97 ∷ 100 ∷ 100 ∷ []

-- "set"
abbrev pub set_text : List ℕ
set_text = 115 ∷ 101 ∷ 116 ∷ []

-- "replace"
abbrev pub replace_text : List ℕ
replace_text = 114 ∷ 101 ∷ 112 ∷ 108 ∷ 97 ∷ 99 ∷ 101 ∷ []

-- "prepend"
abbrev pub prepend_text : List ℕ
prepend_text = 112 ∷ 114 ∷ 101 ∷ 112 ∷ 101 ∷ 110 ∷ 100 ∷ []

-- "append"
abbrev pub append_text : List ℕ
append_text = 97 ∷ 112 ∷ 112 ∷ 101 ∷ 110 ∷ 100 ∷ []

-- "version"
abbrev pub version_text : List ℕ
version_text = 118 ∷ 101 ∷ 114 ∷ 115 ∷ 105 ∷ 111 ∷ 110 ∷ []

-- "stats"
abbrev pub stats_text : List ℕ
stats_text = 115 ∷ 116 ∷ 97 ∷ 116 ∷ 115 ∷ []

-- "CLIENT_ERROR bad command line format"
abbrev pub bad_format : List ℕ
bad_format =
    67 ∷ 76 ∷ 73 ∷ 69 ∷ 78 ∷ 84 ∷ 95 ∷ 69 ∷ 82 ∷ 82 ∷ 79 ∷ 82 ∷ 32 ∷ 98 ∷ 97 ∷ 100 ∷ 32 ∷ 99 ∷ 111
    ∷ 109 ∷ 109 ∷ 97 ∷ 110 ∷ 100 ∷ 32 ∷ 108 ∷ 105 ∷ 110 ∷ 101 ∷ 32 ∷ 102 ∷ 111 ∷ 114 ∷ 109 ∷ 97
    ∷ 116 ∷ []

-- "SERVER_ERROR object too large for cache"
abbrev pub too_large : List ℕ
too_large =
    83 ∷ 69 ∷ 82 ∷ 86 ∷ 69 ∷ 82 ∷ 95 ∷ 69 ∷ 82 ∷ 82 ∷ 79 ∷ 82 ∷ 32 ∷ 111 ∷ 98 ∷ 106 ∷ 101 ∷ 99 ∷ 116
    ∷ 32 ∷ 116 ∷ 111 ∷ 111 ∷ 32 ∷ 108 ∷ 97 ∷ 114 ∷ 103 ∷ 101 ∷ 32 ∷ 102 ∷ 111 ∷ 114 ∷ 32 ∷ 99 ∷ 97
    ∷ 99 ∷ 104 ∷ 101 ∷ []

-- "SERVER_ERROR out of memory storing object"
abbrev pub out_of_memory : List ℕ
out_of_memory =
    83 ∷ 69 ∷ 82 ∷ 86 ∷ 69 ∷ 82 ∷ 95 ∷ 69 ∷ 82 ∷ 82 ∷ 79 ∷ 82 ∷ 32 ∷ 111 ∷ 117 ∷ 116 ∷ 32 ∷ 111
    ∷ 102 ∷ 32 ∷ 109 ∷ 101 ∷ 109 ∷ 111 ∷ 114 ∷ 121 ∷ 32 ∷ 115 ∷ 116 ∷ 111 ∷ 114 ∷ 105 ∷ 110 ∷ 103
    ∷ 32 ∷ 111 ∷ 98 ∷ 106 ∷ 101 ∷ 99 ∷ 116 ∷ []

-- "VERSION /-_-\"
abbrev pub version_reply : List ℕ
version_reply = 86 ∷ 69 ∷ 82 ∷ 83 ∷ 73 ∷ 79 ∷ 78 ∷ 32 ∷ 47 ∷ 45 ∷ 95 ∷ 45 ∷ 92 ∷ []

-- "ERROR"
abbrev pub error_reply : List ℕ
error_reply = 69 ∷ 82 ∷ 82 ∷ 79 ∷ 82 ∷ []

-- "CLIENT_ERROR bad data chunk"
abbrev pub bad_chunk : List ℕ
bad_chunk =
    67 ∷ 76 ∷ 73 ∷ 69 ∷ 78 ∷ 84 ∷ 95 ∷ 69 ∷ 82 ∷ 82 ∷ 79 ∷ 82 ∷ 32 ∷ 98 ∷ 97 ∷ 100 ∷ 32 ∷ 100 ∷ 97
    ∷ 116 ∷ 97 ∷ 32 ∷ 99 ∷ 104 ∷ 117 ∷ 110 ∷ 107 ∷ []

-- "STORED"
abbrev pub stored_reply : List ℕ
stored_reply = 83 ∷ 84 ∷ 79 ∷ 82 ∷ 69 ∷ 68 ∷ []

-- "EXISTS"
abbrev pub exists_reply : List ℕ
exists_reply = 69 ∷ 88 ∷ 73 ∷ 83 ∷ 84 ∷ 83 ∷ []

-- "NOT_FOUND"
abbrev pub not_found : List ℕ
not_found = 78 ∷ 79 ∷ 84 ∷ 95 ∷ 70 ∷ 79 ∷ 85 ∷ 78 ∷ 68 ∷ []

-- "NOT_STORED"
abbrev pub not_stored : List ℕ
not_stored = 78 ∷ 79 ∷ 84 ∷ 95 ∷ 83 ∷ 84 ∷ 79 ∷ 82 ∷ 69 ∷ 68 ∷ []

-- "END"
abbrev pub end_reply : List ℕ
end_reply = 69 ∷ 78 ∷ 68 ∷ []

-- "STAT pid "
abbrev pub stat_pid : List ℕ
stat_pid = 83 ∷ 84 ∷ 65 ∷ 84 ∷ 32 ∷ 112 ∷ 105 ∷ 100 ∷ 32 ∷ []

-- "STAT pointer_size "
abbrev pub stat_pointer_size : List ℕ
stat_pointer_size =
    83 ∷ 84 ∷ 65 ∷ 84 ∷ 32 ∷ 112 ∷ 111 ∷ 105 ∷ 110 ∷ 116 ∷ 101 ∷ 114 ∷ 95 ∷ 115 ∷ 105 ∷ 122 ∷ 101
    ∷ 32 ∷ []

-- "STAT curr_items "
abbrev pub stat_curr_items : List ℕ
stat_curr_items =
    83 ∷ 84 ∷ 65 ∷ 84 ∷ 32 ∷ 99 ∷ 117 ∷ 114 ∷ 114 ∷ 95 ∷ 105 ∷ 116 ∷ 101 ∷ 109 ∷ 115 ∷ 32 ∷ []

-- "STAT total_items "
abbrev pub stat_total_items : List ℕ
stat_total_items =
    83 ∷ 84 ∷ 65 ∷ 84 ∷ 32 ∷ 116 ∷ 111 ∷ 116 ∷ 97 ∷ 108 ∷ 95 ∷ 105 ∷ 116 ∷ 101 ∷ 109 ∷ 115 ∷ 32 ∷ []

-- "STAT bytes "
abbrev pub stat_bytes : List ℕ
stat_bytes = 83 ∷ 84 ∷ 65 ∷ 84 ∷ 32 ∷ 98 ∷ 121 ∷ 116 ∷ 101 ∷ 115 ∷ 32 ∷ []

-- "STAT curr_connections "
abbrev pub stat_curr_connections : List ℕ
stat_curr_connections =
    83 ∷ 84 ∷ 65 ∷ 84 ∷ 32 ∷ 99 ∷ 117 ∷ 114 ∷ 114 ∷ 95 ∷ 99 ∷ 111 ∷ 110 ∷ 110 ∷ 101 ∷ 99 ∷ 116 ∷ 105
    ∷ 111 ∷ 110 ∷ 115 ∷ 32 ∷ []

-- "STAT total_connections "
abbrev pub stat_total_connections : List ℕ
stat_total_connections =
    83 ∷ 84 ∷ 65 ∷ 84 ∷ 32 ∷ 116 ∷ 111 ∷ 116 ∷ 97 ∷ 108 ∷ 95 ∷ 99 ∷ 111 ∷ 110 ∷ 110 ∷ 101 ∷ 99 ∷ 116
    ∷ 105 ∷ 111 ∷ 110 ∷ 115 ∷ 32 ∷ []

-- "STAT cmd_get "
abbrev pub stat_cmd_get : List ℕ
stat_cmd_get = 83 ∷ 84 ∷ 65 ∷ 84 ∷ 32 ∷ 99 ∷ 109 ∷ 100 ∷ 95 ∷ 103 ∷ 101 ∷ 116 ∷ 32 ∷ []

-- "STAT cmd_set "
abbrev pub stat_cmd_set : List ℕ
stat_cmd_set = 83 ∷ 84 ∷ 65 ∷ 84 ∷ 32 ∷ 99 ∷ 109 ∷ 100 ∷ 95 ∷ 115 ∷ 101 ∷ 116 ∷ 32 ∷ []

-- "STAT get_hits "
abbrev pub stat_get_hits : List ℕ
stat_get_hits = 83 ∷ 84 ∷ 65 ∷ 84 ∷ 32 ∷ 103 ∷ 101 ∷ 116 ∷ 95 ∷ 104 ∷ 105 ∷ 116 ∷ 115 ∷ 32 ∷ []

-- "STAT get_misses "
abbrev pub stat_get_misses : List ℕ
stat_get_misses =
    83 ∷ 84 ∷ 65 ∷ 84 ∷ 32 ∷ 103 ∷ 101 ∷ 116 ∷ 95 ∷ 109 ∷ 105 ∷ 115 ∷ 115 ∷ 101 ∷ 115 ∷ 32 ∷ []

-- "STAT evictions "
abbrev pub stat_evictions : List ℕ
stat_evictions =
    83 ∷ 84 ∷ 65 ∷ 84 ∷ 32 ∷ 101 ∷ 118 ∷ 105 ∷ 99 ∷ 116 ∷ 105 ∷ 111 ∷ 110 ∷ 115 ∷ 32 ∷ []

-- "STAT bytes_read "
abbrev pub stat_bytes_read : List ℕ
stat_bytes_read =
    83 ∷ 84 ∷ 65 ∷ 84 ∷ 32 ∷ 98 ∷ 121 ∷ 116 ∷ 101 ∷ 115 ∷ 95 ∷ 114 ∷ 101 ∷ 97 ∷ 100 ∷ 32 ∷ []

-- "STAT bytes_written "
abbrev pub stat_bytes_written : List ℕ
stat_bytes_written =
    83 ∷ 84 ∷ 65 ∷ 84 ∷ 32 ∷ 98 ∷ 121 ∷ 116 ∷ 101 ∷ 115 ∷ 95 ∷ 119 ∷ 114 ∷ 105 ∷ 116 ∷ 116 ∷ 101
    ∷ 110 ∷ 32 ∷ []
