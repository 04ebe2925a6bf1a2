-- ===== src/Operations/Words.antt =====
-- The words of src/operations.py and src/controller.py, as code points.
use logvine.Prelude.{[], ◌∷◌}
use logvine.Prelude.Text.{Text}

-- "PUT"
abbrev pub put_name : Text
put_name = 80 ∷ 85 ∷ 84 ∷ []

-- "GET"
abbrev pub get_name : Text
get_name = 71 ∷ 69 ∷ 84 ∷ []

-- "DELETE"
abbrev pub delete_name : Text
delete_name = 68 ∷ 69 ∷ 76 ∷ 69 ∷ 84 ∷ 69 ∷ []

-- "READ_KEY_RANGE"
abbrev pub range_name : Text
range_name = 82 ∷ 69 ∷ 65 ∷ 68 ∷ 95 ∷ 75 ∷ 69 ∷ 89 ∷ 95 ∷ 82 ∷ 65 ∷ 78 ∷ 71 ∷ 69 ∷ []

-- "BATCH_PUT"
abbrev pub batch_name : Text
batch_name = 66 ∷ 65 ∷ 84 ∷ 67 ∷ 72 ∷ 95 ∷ 80 ∷ 85 ∷ 84 ∷ []

-- "operation"
abbrev pub operation_field : Text
operation_field = 111 ∷ 112 ∷ 101 ∷ 114 ∷ 97 ∷ 116 ∷ 105 ∷ 111 ∷ 110 ∷ []

-- "key"
abbrev pub key_field : Text
key_field = 107 ∷ 101 ∷ 121 ∷ []

-- "value"
abbrev pub value_field : Text
value_field = 118 ∷ 97 ∷ 108 ∷ 117 ∷ 101 ∷ []

-- "keys"
abbrev pub keys_field : Text
keys_field = 107 ∷ 101 ∷ 121 ∷ 115 ∷ []

-- "values"
abbrev pub values_field : Text
values_field = 118 ∷ 97 ∷ 108 ∷ 117 ∷ 101 ∷ 115 ∷ []

-- "start_key"
abbrev pub start_key_field : Text
start_key_field = 115 ∷ 116 ∷ 97 ∷ 114 ∷ 116 ∷ 95 ∷ 107 ∷ 101 ∷ 121 ∷ []

-- "end_key"
abbrev pub end_key_field : Text
end_key_field = 101 ∷ 110 ∷ 100 ∷ 95 ∷ 107 ∷ 101 ∷ 121 ∷ []

-- "error"
abbrev pub error_field : Text
error_field = 101 ∷ 114 ∷ 114 ∷ 111 ∷ 114 ∷ []

-- "success"
abbrev pub success_field : Text
success_field = 115 ∷ 117 ∷ 99 ∷ 99 ∷ 101 ∷ 115 ∷ 115 ∷ []

-- "count"
abbrev pub count_field : Text
count_field = 99 ∷ 111 ∷ 117 ∷ 110 ∷ 116 ∷ []

-- "results"
abbrev pub results_field : Text
results_field = 114 ∷ 101 ∷ 115 ∷ 117 ∷ 108 ∷ 116 ∷ 115 ∷ []

-- "status"
abbrev pub status_field : Text
status_field = 115 ∷ 116 ∷ 97 ∷ 116 ∷ 117 ∷ 115 ∷ []

-- "stream_status"
abbrev pub stream_status_field : Text
stream_status_field = 115 ∷ 116 ∷ 114 ∷ 101 ∷ 97 ∷ 109 ∷ 95 ∷ 115 ∷ 116 ∷ 97 ∷ 116 ∷ 117 ∷ 115 ∷ []

-- "chunk_id"
abbrev pub chunk_id_field : Text
chunk_id_field = 99 ∷ 104 ∷ 117 ∷ 110 ∷ 107 ∷ 95 ∷ 105 ∷ 100 ∷ []

-- "items"
abbrev pub items_field : Text
items_field = 105 ∷ 116 ∷ 101 ∷ 109 ∷ 115 ∷ []

-- "put"
abbrev pub put_text : Text
put_text = 112 ∷ 117 ∷ 116 ∷ []

-- "get"
abbrev pub get_text : Text
get_text = 103 ∷ 101 ∷ 116 ∷ []

-- "delete"
abbrev pub delete_text : Text
delete_text = 100 ∷ 101 ∷ 108 ∷ 101 ∷ 116 ∷ 101 ∷ []

-- "read_key_range"
abbrev pub range_text : Text
range_text = 114 ∷ 101 ∷ 97 ∷ 100 ∷ 95 ∷ 107 ∷ 101 ∷ 121 ∷ 95 ∷ 114 ∷ 97 ∷ 110 ∷ 103 ∷ 101 ∷ []

-- "batch_put"
abbrev pub batch_text : Text
batch_text = 98 ∷ 97 ∷ 116 ∷ 99 ∷ 104 ∷ 95 ∷ 112 ∷ 117 ∷ 116 ∷ []

-- "ok"
abbrev pub ok_text : Text
ok_text = 111 ∷ 107 ∷ []

-- "in_progress"
abbrev pub in_progress_text : Text
in_progress_text = 105 ∷ 110 ∷ 95 ∷ 112 ∷ 114 ∷ 111 ∷ 103 ∷ 114 ∷ 101 ∷ 115 ∷ 115 ∷ []

-- "done"
abbrev pub done_text : Text
done_text = 100 ∷ 111 ∷ 110 ∷ 101 ∷ []

-- "terminated"
abbrev pub terminated_text : Text
terminated_text = 116 ∷ 101 ∷ 114 ∷ 109 ∷ 105 ∷ 110 ∷ 97 ∷ 116 ∷ 101 ∷ 100 ∷ []

-- "OK"
abbrev pub returned_text : Text
returned_text = 79 ∷ 75 ∷ []

-- "OK ("
abbrev pub batch_start : Text
batch_start = 79 ∷ 75 ∷ 32 ∷ 40 ∷ []

-- " items)"
abbrev pub batch_end : Text
batch_end = 32 ∷ 105 ∷ 116 ∷ 101 ∷ 109 ∷ 115 ∷ 41 ∷ []

-- "Key not found"
abbrev pub not_found_text : Text
not_found_text = 75 ∷ 101 ∷ 121 ∷ 32 ∷ 110 ∷ 111 ∷ 116 ∷ 32 ∷ 102 ∷ 111 ∷ 117 ∷ 110 ∷ 100 ∷ []

-- "error_type"
abbrev pub error_type_field : Text
error_type_field = 101 ∷ 114 ∷ 114 ∷ 111 ∷ 114 ∷ 95 ∷ 116 ∷ 121 ∷ 112 ∷ 101 ∷ []

-- "batch_too_large"
abbrev pub too_large_text : Text
too_large_text =
    98 ∷ 97 ∷ 116 ∷ 99 ∷ 104 ∷ 95 ∷ 116 ∷ 111 ∷ 111 ∷ 95 ∷ 108 ∷ 97 ∷ 114 ∷ 103 ∷ 101 ∷ []

-- "error"
abbrev pub failed_text : Text
failed_text = 101 ∷ 114 ∷ 114 ∷ 111 ∷ 114 ∷ []
