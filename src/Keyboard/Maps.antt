-- ===== src/Keyboard/Maps.antt =====
-- The four tables of src/drivers/keyboard/keyboard.c: the character of each scan code below 128, 0
-- where there is none.
use project_orange_tea.Base.{ℕ, List, ◌∷◌, replicate}

-- `base_map`
abbrev pub base_map : List ℕ
base_map =
    0
    ∷ 27
    ∷ 49
    ∷ 50
    ∷ 51
    ∷ 52
    ∷ 53
    ∷ 54
    ∷ 55
    ∷ 56
    ∷ 57
    ∷ 48
    ∷ 45
    ∷ 61
    ∷ 8
    ∷ 9
    ∷ 113
    ∷ 119
    ∷ 101
    ∷ 114
    ∷ 116
    ∷ 121
    ∷ 117
    ∷ 105
    ∷ 111
    ∷ 112
    ∷ 91
    ∷ 93
    ∷ 10
    ∷ 0
    ∷ 97
    ∷ 115
    ∷ 100
    ∷ 102
    ∷ 103
    ∷ 104
    ∷ 106
    ∷ 107
    ∷ 108
    ∷ 59
    ∷ 39
    ∷ 96
    ∷ 0
    ∷ 92
    ∷ 122
    ∷ 120
    ∷ 99
    ∷ 118
    ∷ 98
    ∷ 110
    ∷ 109
    ∷ 44
    ∷ 46
    ∷ 47
    ∷ 0
    ∷ 0
    ∷ 0
    ∷ 32
    ∷ replicate 70 0

-- `shift_map`
abbrev pub shift_map : List ℕ
shift_map =
    0
    ∷ 27
    ∷ 33
    ∷ 64
    ∷ 35
    ∷ 36
    ∷ 37
    ∷ 94
    ∷ 38
    ∷ 42
    ∷ 40
    ∷ 41
    ∷ 95
    ∷ 43
    ∷ 8
    ∷ 9
    ∷ 81
    ∷ 87
    ∷ 69
    ∷ 82
    ∷ 84
    ∷ 89
    ∷ 85
    ∷ 73
    ∷ 79
    ∷ 80
    ∷ 123
    ∷ 125
    ∷ 10
    ∷ 0
    ∷ 65
    ∷ 83
    ∷ 68
    ∷ 70
    ∷ 71
    ∷ 72
    ∷ 74
    ∷ 75
    ∷ 76
    ∷ 58
    ∷ 34
    ∷ 126
    ∷ 0
    ∷ 124
    ∷ 90
    ∷ 88
    ∷ 67
    ∷ 86
    ∷ 66
    ∷ 78
    ∷ 77
    ∷ 60
    ∷ 62
    ∷ 63
    ∷ 0
    ∷ 0
    ∷ 0
    ∷ 32
    ∷ replicate 70 0

-- `fr_base_map`
abbrev pub fr_base_map : List ℕ
fr_base_map =
    0
    ∷ 27
    ∷ 49
    ∷ 50
    ∷ 51
    ∷ 52
    ∷ 53
    ∷ 54
    ∷ 55
    ∷ 56
    ∷ 57
    ∷ 48
    ∷ 45
    ∷ 61
    ∷ 8
    ∷ 9
    ∷ 97
    ∷ 122
    ∷ 101
    ∷ 114
    ∷ 116
    ∷ 121
    ∷ 117
    ∷ 105
    ∷ 111
    ∷ 112
    ∷ 94
    ∷ 36
    ∷ 10
    ∷ 0
    ∷ 113
    ∷ 115
    ∷ 100
    ∷ 102
    ∷ 103
    ∷ 104
    ∷ 106
    ∷ 107
    ∷ 108
    ∷ 109
    ∷ 42
    ∷ 96
    ∷ 0
    ∷ 92
    ∷ 119
    ∷ 120
    ∷ 99
    ∷ 118
    ∷ 98
    ∷ 110
    ∷ 44
    ∷ 59
    ∷ 46
    ∷ 47
    ∷ 0
    ∷ 0
    ∷ 0
    ∷ 32
    ∷ replicate 70 0

-- `fr_shift_map`
abbrev pub fr_shift_map : List ℕ
fr_shift_map =
    0
    ∷ 27
    ∷ 33
    ∷ 64
    ∷ 35
    ∷ 36
    ∷ 37
    ∷ 94
    ∷ 38
    ∷ 42
    ∷ 40
    ∷ 41
    ∷ 95
    ∷ 43
    ∷ 8
    ∷ 9
    ∷ 65
    ∷ 90
    ∷ 69
    ∷ 82
    ∷ 84
    ∷ 89
    ∷ 85
    ∷ 73
    ∷ 79
    ∷ 80
    ∷ 34
    ∷ 124
    ∷ 10
    ∷ 0
    ∷ 81
    ∷ 83
    ∷ 68
    ∷ 70
    ∷ 71
    ∷ 72
    ∷ 74
    ∷ 75
    ∷ 76
    ∷ 77
    ∷ 126
    ∷ 126
    ∷ 0
    ∷ 124
    ∷ 87
    ∷ 88
    ∷ 67
    ∷ 86
    ∷ 66
    ∷ 78
    ∷ 63
    ∷ 46
    ∷ 47
    ∷ 92
    ∷ 0
    ∷ 0
    ∷ 0
    ∷ 32
    ∷ replicate 70 0
